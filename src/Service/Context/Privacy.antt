-- ===== src/Service/Context/Privacy.antt =====
-- Which devices the language model is told of.
use taffy_assistant.Base.{
  ℕ, String, Option, none, some, List, [], ◌∷◌, map, ◌≡◌, refl, ap, sym, ◌∙◌, arith, select,
  select_one, inl, inr, Option-cases,
}
use taffy_assistant.Errors.{Error, wrap}
use taffy_assistant.Model.{Device, DeviceState}
use taffy_assistant.Protocol.{DeviceContext}
use taffy_assistant.Store.{Collation, World, Db, Result, ok, err, Result-cases}
use taffy_assistant.Repo.Devices.{has_id, is_owner}
use taffy_assistant.Repo.Devices
use taffy_assistant.Service.Devices.{get_device, list_devices_by_owner, list_device_states_by_owner}
use taffy_assistant.Service.Context.{build_device_context, items_of_owner, item_of, state_of}

item_of-id : (states : List DeviceState) (d : Device) → (item_of states d).device_id ≡ d.device_id
unfolding item_of
item_of-id states d = elim (Option-cases (state_of d.device_id states)) [
  | inl none_known ↦ rw none_known refl
  | inr (s, known) ↦ rw known refl
]

ids-items :
    (states : List DeviceState) (ds : List Device)
    → map (λ (x : DeviceContext). x.device_id) (map (item_of states) ds)
      ≡ map (λ (d : Device). d.device_id) ds
ids-items states [] = refl
ids-items states (d ∷ ds) =
    rw (item_of-id states d) (ap (λ ids. d.device_id ∷ ids) (ids-items states ds))

-- The owner's devices, or none for nobody.
abbrev pub devices_of : Option ℕ → List Device → List Device
devices_of none ds = []
devices_of (some owner) ds = select (λ d. is_owner d.owner_id owner) ds

module _ ⦃c : Collation⦄ where
  list_devices-ok :
      (owner : ℕ) (w w' : World) (ds : List Device)
      → list_devices_by_owner owner w ≡ (ok ds, w')
      → (ds ≡ select (λ d. is_owner d.owner_id owner) w.devices) × (w'.db ≡ w.db)
  unfolding list_devices_by_owner Devices.list_by_owner
  list_devices-ok owner w w' ds h = ground arith

  get_device-ok :
      (id : String) (w w' : World) (d : Device)
      → get_device id w ≡ (ok d, w')
      → (select_one (has_id id) w.devices ≡ some d) × (w'.db ≡ w.db)
  unfolding get_device Devices.get_by_id
  get_device-ok id w w' d h = ground arith

  err_is_not_ok :
      {A : Type 0} (e : Error) (a : A) (v w : World)
      → ¬ (◌≡◌ {A = Result A × World} (err e, v) (ok a, w))
  err_is_not_ok e a v w h = ground arith

  devices_failed :
      (owner : ℕ) (w v : World) (e : Error)
      → list_devices_by_owner owner w ≡ (err e, v)
      → items_of_owner (some owner) w ≡ (err (wrap "list devices" e), v)
  devices_failed owner w v e run = rw run refl

  states_failed :
      (owner : ℕ) (w v u : World) (ds : List Device) (e : Error)
      → list_devices_by_owner owner w ≡ (ok ds, v)
      → list_device_states_by_owner owner v ≡ (err e, u)
      → items_of_owner (some owner) w ≡ (err (wrap "list states" e), u)
  states_failed owner w v u ds e run next = rw (run, next) refl

  items_listed :
      (owner : ℕ) (w v u : World) (ds : List Device) (states : List DeviceState)
      → list_devices_by_owner owner w ≡ (ok ds, v)
      → list_device_states_by_owner owner v ≡ (ok states, u)
      → items_of_owner (some owner) w ≡ (ok (map (item_of states) ds), u)
  items_listed owner w v u ds states run next = rw (run, next) refl

  owner_items :
      (owner : ℕ) (w w' : World) (items : List DeviceContext)
      → items_of_owner (some owner) w ≡ (ok items, w')
      → (states : List DeviceState) × (items
          ≡ map (item_of states) (select (λ d. is_owner d.owner_id owner) w.devices))
  owner_items owner w w' items h = elim (Result-cases (list_devices_by_owner owner w)) [
    | inl (e, v, run) ↦ elim (err_is_not_ok _ _ v w' (sym (devices_failed owner w v e run) ∙ h)) [ ]
    | inr (ds, v, run) ↦ elim (Result-cases (list_device_states_by_owner owner v)) [
      | inl (e, u, next) ↦
          elim (err_is_not_ok _ _ u w' (sym (states_failed owner w v u ds e run next) ∙ h)) [ ]
      | inr (states, u, next) ↦ (
        states,
        same_items items _ w' u (sym h ∙ items_listed owner w v u ds states run next)
            ∙ ap (map (item_of states)) (list_devices-ok owner w v ds run).0,
      )
    ]
  ]
    where
      same_items :
          (xs ys : List DeviceContext) (u v : World)
          → ◌≡◌ {A = Result (List DeviceContext) × World} (ok xs, u) (ok ys, v)
          → xs ≡ ys
      same_items xs ys u v e = ground arith

  items_of_owner-owned :
      (o : Option ℕ) (w w' : World) (items : List DeviceContext)
      → items_of_owner o w ≡ (ok items, w')
      → map (λ (x : DeviceContext). x.device_id) items
        ≡ map (λ (x : Device). x.device_id) (devices_of o w.devices)
  items_of_owner-owned none w w' items h = rw (nothing_listed items h) refl
    where
      nothing_listed :
          (items : List DeviceContext) → items_of_owner none w ≡ (ok items, w') → items ≡ []
      nothing_listed items h = ground arith
  items_of_owner-owned (some owner) w w' items h =
      let (states, same) = owner_items owner w w' items h in
      ap (map (λ (x : DeviceContext). x.device_id)) same
      ∙ ids-items states (select (λ d. is_owner d.owner_id owner) w.devices)

  context_failed :
      (id : String) (w v : World) (e : Error)
      → get_device id w ≡ (err e, v)
      → build_device_context id w ≡ (err (wrap "get device" e), v)
  unfolding build_device_context
  context_failed id w v e run = rw run refl

  context_found :
      (id : String) (w v : World) (d : Device)
      → get_device id w ≡ (ok d, v)
      → build_device_context id w ≡ items_of_owner d.owner_id v
  unfolding build_device_context
  context_found id w v d run = rw run refl

  -- If a device context is built for a device, then the device is known, and the context has exactly
  -- the devices of its owner, in the order of the table, or none if it has no owner.
  pub build_device_context-owned :
      (id : String) (w w' : World) (items : List DeviceContext)
      → build_device_context id w ≡ (ok items, w')
      → (d : Device) × (select_one (has_id id) w.devices ≡ some d)
        × (map (λ (x : DeviceContext). x.device_id) items
            ≡ map (λ (x : Device). x.device_id) (devices_of d.owner_id w.devices))
  unfolding build_device_context
  build_device_context-owned id w w' items h = elim (Result-cases (get_device id w)) [
    | inl (e, v, run) ↦ elim (err_is_not_ok _ _ v w' (sym (context_failed id w v e run) ∙ h)) [ ]
    | inr (d, v, run) ↦
        let (found, same) = get_device-ok id w v d run in
        (
          d,
          found,
          items_of_owner-owned d.owner_id v w' items (sym (context_found id w v d run) ∙ h)
              ∙ ap
                  (λ (db : Db).
                    map (λ (x : Device). x.device_id) (devices_of d.owner_id db.devices))
                  same,
        )
  ]
