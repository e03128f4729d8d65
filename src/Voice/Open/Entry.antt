-- ===== src/Voice/Open/Entry.antt =====
-- Who a voice session is opened to.
use taffy_assistant.Base.{
  String, true, Option, some, List, ◌≡◌, refl, inl, inr, arith, subst, eq_iff, select_one,
}
use taffy_assistant.Errors.{Error}
use taffy_assistant.Model.{Device}
use taffy_assistant.Store.{Collation, World, Result, ok, err, Result-cases}
use taffy_assistant.Repo.Devices.{has_id, get_by_id}
use taffy_assistant.Service.Devices.{DeviceService, validate_device_credential}
use taffy_assistant.Service.Devices.Ownership.{is_accepted}
use taffy_assistant.Voice.Auth.{authenticate_device}
use taffy_assistant.Voice.Pump.{Event, Pump, run}
use taffy_assistant.Voice.Open.{
  Door, unauthorized, talked, serve_voice, entered, open_session, finish,
}

module _ ⦃c : Collation⦄ where
  validated :
      (id token : String) (w w' : World) (d : Device)
      → validate_device_credential id token w ≡ (ok d, w')
      → (select_one (has_id id) w.devices ≡ some d) × (is_accepted id token d ≡ true)
  unfolding validate_device_credential get_by_id
  validated id token w w' d h =
      ground (arith, eq_iff d.token token, eq_iff d.token "", eq_iff token "", eq_iff id "")

  authenticated :
      (s : DeviceService) (id token : String) (w w' : World) (o : Option Device)
      → authenticate_device true (some s) id token w ≡ (ok o, w')
      → (d : Device) × (o ≡ some d) × (validate_device_credential id token w ≡ (ok d, w'))
  unfolding authenticate_device
  authenticated s id token w w' o h = elim (Result-cases (validate_device_credential id token w)) [
    | inl (e, w1, run) ↦ elim (not_ok e w1 run) [ ]
    | inr (d, w1, run) ↦ (d, ground arith, ground arith)
  ]
    where
      not_ok : (e : Error) (w1 : World) → ¬ (validate_device_credential id token w ≡ (err e, w1))
      not_ok e w1 run = ground arith

  talked-authenticated :
      (d : Door) (id : String) (events : List Event) (p : Pump) (x : Result (Option Device) × World)
      → entered d id events x ≡ talked p
      → (o : Option Device) × (w : World) × (x ≡ (ok o, w))
        × (p ≡ finish (run d.handler events (open_session d id o w)))
  talked-authenticated d id events p (err e, w) h = elim (apart h) [ ]
    where
      apart : ¬ (unauthorized w ≡ talked p)
      apart h = cc
  talked-authenticated d id events p (ok o, w) h = (o, w, refl, ended h)
    where
      ended :
          entered d id events (ok o, w) ≡ talked p
          → p ≡ finish (run d.handler events (open_session d id o w))
      ended h = ground arith

  -- With the check of credentials on and a device service, whatever fails: a session that takes place
  -- is the session of a device that is in the table under the id of the request, is not unregistered
  -- and has exactly the token of the request, which is not empty. It has run its events from the start
  -- that this device's session has, and it has been ended.
  pub serve_voice-device :
      (d : Door) (s : DeviceService) (id token : String) (events : List Event) (w : World)
      (p : Pump)
      → d.auth_enabled ≡ true
      → d.handler.device_svc ≡ some s
      → serve_voice d id token events w ≡ talked p
      → (o : Device) × (w' : World) × (select_one (has_id id) w.devices ≡ some o)
        × (is_accepted id token o ≡ true)
        × (p ≡ finish (run d.handler events (open_session d id (some o) w')))
  unfolding serve_voice
  serve_voice-device d s id token events w p on has_service h =
      let (found, w', x, q) =
        talked-authenticated d id events p
          (authenticate_device d.auth_enabled d.handler.device_svc id token w) h in
      let (o, e, v) = authenticated s id token w w' found (
        subst (λ b. authenticate_device b (some s) id token w ≡ (ok found, w')) on
          (subst (λ svc. authenticate_device d.auth_enabled svc id token w ≡ (ok found, w'))
            has_service x)) in
      let (row, fits) = validated id token w w' o v in
      (
        o,
        w',
        row,
        fits,
        subst (λ f. p ≡ finish (run d.handler events (open_session d id f w'))) e q,
      )
