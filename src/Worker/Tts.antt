-- ===== src/Worker/Tts.antt =====
-- worker/internal/handler/tts.go
pub mod Bounds
use Prim.Native.String.{◌++◌ as cat}
use taffy_assistant.Base.{
  ℕ, zero, suc, [], ◌∷◌, ◌*◌, ◌+◌, String, Bool, true, false, Option, none, some, List, ◌==◌, ◌⧺◌,
  eqb, ltb, length, if◌then◌else◌,
}
use taffy_assistant.Worker.Llm.{Answer, ok, err}

-- `maxWavBytes`.
abbrev pub max_wav_bytes : ℕ
max_wav_bytes = 8 * 1024 * 1024

-- A wav, and the least length of one.
abbrev pub Wav : Type 0
Wav = List ℕ

abbrev pub wav_header : ℕ
wav_header = 44

-- What the service replies: the request fails, or a status (its number, and its text with the start
-- of an error's body) with a body, unless the reading fails.
pub data TtsReply : Type 0 where
  failed : String → TtsReply
  replied : ℕ → String → Answer Wav → TtsReply

-- What `io.LimitReader` lets through.
unfoldable pub limited : ℕ → Wav → Wav
limited zero bytes = []
limited (suc n) [] = []
limited (suc n) (b ∷ bytes) = b ∷ limited n bytes

abbrev pub size_checked : Wav → Answer Wav
size_checked wav =
    if ltb max_wav_bytes (length wav)
    then err "tts response too large: > 8388608 bytes"
    else if ltb (length wav) wav_header
    then err "tts response too short, not a valid wav"
    else ok wav

abbrev pub body_checked : Answer Wav → Answer Wav
body_checked (err t) = err ("read tts body: " ⧺ t)
body_checked (ok body) = size_checked (limited (max_wav_bytes + 1) body)

-- `callTTS`.
unfoldable pub call_tts : TtsReply → Answer Wav
call_tts (failed t) = err ("tts http: " ⧺ t)
call_tts (replied status status_text body) =
    if eqb status 200 then body_checked body else err ("tts status " ⧺ status_text)

-- The event that `synthesizeAndSendTTS` sends, if any; `service` is what the text would be answered.
unfoldable pub tts_audio : String → (String → TtsReply) → String → Option Wav
unfolding call_tts
tts_audio url service text =
    if url == ""
    then none
    else if text == ""
    then none
    else elim (call_tts (service text)) [ err t ↦ none | ok wav ↦ some wav ]
