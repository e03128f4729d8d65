-- ===== src/Worker/Tts/Bounds.antt =====
-- What is sent as speech.
use taffy_assistant.Base.{
  [], ◌∷◌, zero, suc, ◌+◌, ◌<◌, refl, ap, sym, ◌∙◌, ℕ, ◌≤◌, String, true, false, some, ◌≡◌, ◌==◌,
  arith, length, eqb, eqb_iff,
}
use taffy_assistant.Worker.Llm.{Answer, ok, err}
use taffy_assistant.Worker.Tts.{
  Wav, TtsReply, failed, replied, max_wav_bytes, wav_header, call_tts, tts_audio, size_checked,
  limited, body_checked,
}

size_checked-bounds :
    (bytes wav : Wav)
    → size_checked bytes ≡ ok wav
    → (bytes ≡ wav) × (wav_header ≤ length wav) × (length wav ≤ max_wav_bytes)
size_checked-bounds bytes wav h = ground arith

limited-below : (n : ℕ) (body : Wav) → length (limited n body) < n → limited n body ≡ body
unfolding limited
limited-below zero body h = ground arith
limited-below (suc n) [] h = refl
limited-below (suc n) (b ∷ bytes) h = ap (λ xs. b ∷ xs) (limited-below n bytes (omega (arith, h)))

-- A body that the limit does not reach is let through as it is.
limited-short :
    (n : ℕ) (body : Wav) → length (limited (n + 1) body) ≤ n → limited (n + 1) body ≡ body
limited-short n body h = limited-below (n + 1) body (omega (arith, h))

replied_well :
    (status : ℕ) (status_text : String) (body : Answer Wav) (wav : Wav)
    → call_tts (replied status status_text body) ≡ ok wav
    → (eqb status 200 ≡ true) × (body_checked body ≡ ok wav)
unfolding call_tts
replied_well status status_text body wav h = ground arith

call_tts-bounds :
    (r : TtsReply) (wav : Wav)
    → call_tts r ≡ ok wav
    → (status_text : String) × (r ≡ replied 200 status_text (ok wav))
      × (wav_header ≤ length wav)
      × (length wav ≤ max_wav_bytes)
unfolding call_tts
call_tts-bounds (failed t) wav h = cc
call_tts-bounds (replied status status_text (err t)) wav h =
    ground (arith, replied_well status status_text (err t) wav h)
call_tts-bounds (replied status status_text (ok bytes)) wav h =
    let (fine, checked) = replied_well status status_text (ok bytes) wav h in
    let (same, least, most) = size_checked-bounds (limited (max_wav_bytes + 1) bytes) wav checked in
    let whole = sym (limited-short max_wav_bytes bytes (rw same most)) ∙ same in
    (status_text, ground (arith, whole, eqb_iff status 200), least, most)

tts_audio-called :
    (url : String) (service : String → TtsReply) (text : String) (wav : Wav)
    → tts_audio url service text ≡ some wav
    → ((text == "") ≡ false) × (call_tts (service text) ≡ ok wav)
unfolding tts_audio
tts_audio-called url service text wav h = ground arith

-- Speech is sent only for a text that is not empty, only if the service replied with status 200 and
-- these very bytes, and only if they are at least the 44 bytes of a header and at most 8 MiB.
pub tts_audio-bounds :
    (url : String) (service : String → TtsReply) (text : String) (wav : Wav)
    → tts_audio url service text ≡ some wav
    → ((text == "") ≡ false)
      × (status_text : String) × (service text ≡ replied 200 status_text (ok wav))
      × (wav_header ≤ length wav)
      × (length wav ≤ max_wav_bytes)
unfolding tts_audio
tts_audio-bounds url service text wav h =
    let (spoken, called) = tts_audio-called url service text wav h in
    let (status_text, replied_ok, least, most) = call_tts-bounds (service text) wav called in
    (spoken, status_text, replied_ok, least, most)
