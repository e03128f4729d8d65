-- ===== src/Voice/Auth.antt =====
-- Who may open a voice session: `parseAuthFlag` and `authenticateDevice`.
use Prim.Native.Char.{code}
use taffy_assistant.Base.{
  ℕ, ◌+◌, String, Bool, true, false, ◌&&◌, ◌||◌, Option, none, some, List, [], ◌∷◌, ◌==◌, eqb, leb,
  if◌then◌else◌, trim_space,
}
use taffy_assistant.Errors.{invalid_device_token}
use taffy_assistant.Model.{Device}
use taffy_assistant.Store.{Collation, M, Result, ok, err, pure, fail, ◌>>=◌, try}
use taffy_assistant.Service.Devices.{DeviceService, get_device, validate_device_credential}

-- The code points of a text.
unfoldable pub codes : String → List ℕ
codes String.[] = []
codes (String.◌∷◌ ch s) = code ch ∷ codes s

-- `strings.ToLower` where it ends in an ASCII letter: capitals, the dotted capital I and
-- the Kelvin sign.
unfoldable pub lower : ℕ → ℕ
lower n =
    if leb 65 n && leb n 90
    then n + 32
    else if eqb n 0x130
    then 105
    else if eqb n 0x212a
    then 107
    else n

unfoldable pub lowered : List ℕ → List ℕ
unfolding lower
lowered [] = []
lowered (n ∷ ns) = lower n ∷ lowered ns

unfoldable pub equal_codes : List ℕ → List ℕ → Bool
equal_codes [] [] = true
equal_codes (m ∷ ms) (n ∷ ns) = eqb m n && equal_codes ms ns
equal_codes _ _ = false

-- `parseAuthFlag`.
unfoldable pub parse_auth_flag : String → Bool
unfolding codes trim_space lowered equal_codes
parse_auth_flag v =
    let word = lowered (codes (trim_space v)) in
    if equal_codes word (codes "off")
      || equal_codes word (codes "0")
      || equal_codes word (codes "false")
      || equal_codes word (codes "no")
      || equal_codes word (codes "disable")
      || equal_codes word (codes "disabled")
    then false
    else true

abbrev pub found_or_nil : Result Device → M (Option Device)
found_or_nil (ok d) = pure (some d)
found_or_nil (err e) = pure none

module _ ⦃c : Collation⦄ where
  -- `authenticateDevice`, on a handler whose device service may be missing.
  unfoldable pub authenticate_device :
      Bool → Option DeviceService → String → String → M (Option Device)
  authenticate_device false none id token = pure none
  authenticate_device false (some s) id token =
      if id == "" then pure none else try (get_device id) >>= found_or_nil
  authenticate_device true none id token = pure none
  authenticate_device true (some s) id token =
      if id == "" || token == ""
      then fail invalid_device_token
      else validate_device_credential id token >>= λ d. pure (some d)
