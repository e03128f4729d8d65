-- ===== src/Service/Devices/Orphans.antt =====
-- What becomes of the devices of a user whose account is deleted.
use taffy_assistant.Base.{
  ℕ, String, Bool, true, false, none, some, List, [], ◌∷◌, ◌≡◌, refl, ap, eq_iff, arith, select_one,
  select_one-update, count_rows, All,
}
use taffy_assistant.Model.{Device}
use taffy_assistant.Store.{Collation, World, ok, is_ok}
use taffy_assistant.Repo.Devices.{has_id, is_claimable, get_by_id, bind_to_owner, bind_rows}
use taffy_assistant.Repo.Devices.Keys.{count_one}
use taffy_assistant.Repo.Users.{disowned, without_user}
use taffy_assistant.Repo.Users
use taffy_assistant.Repo.Wf.{IsWf, is_spent}
use taffy_assistant.Repo.Wf.Users.{IsWf-without_user}
use taffy_assistant.Service.Users.{delete_user}
use taffy_assistant.Service.Devices.{bind_device}

spent_row :
    (p : Device → Bool) (xs : List Device) (x : Device)
    → All (λ (d : Device). is_spent d ≡ true) xs
    → select_one p xs ≡ some x
    → is_spent x ≡ true
unfolding select_one
spent_row p [] x a h = cc
spent_row p (y ∷ ys) x a h = ground (arith, spent_row p ys x a.1)

module _ ⦃c : Collation⦄ where
  bind_device-unclaimable :
      (user : ℕ) (id code name room : String) (w : World)
      → count_rows (is_claimable id code) w.devices ≡ 0
      → is_ok (bind_device user id code name room w).0 ≡ false
  unfolding bind_device bind_to_owner get_by_id bind_rows
  bind_device-unclaimable user id code name room w h = ground arith

  delete_user-db :
      (user : ℕ) (w w' : World) → delete_user user w ≡ (ok tt, w') → w'.db ≡ without_user user w.db
  unfolding delete_user Users.delete
  delete_user-db user w w' h = ground arith

  left_device :
      (user : ℕ) (id : String) (w : World) (o : Device)
      → select_one (has_id id) w.devices ≡ some o
      → o.owner_id ≡ some user
      → select_one (has_id id) (without_user user w.db).devices
        ≡ some (record o { owner_id = none })
  left_device user id w o found mine =
      rw
        (
          select_one-update (has_id id) (λ _. true) (disowned user) w.devices
              (λ x. ap (λ i. c.same i id) (same_id x)),
          found,
          owned o mine,
        )
        refl
    where
      same_id : (x : Device) → (disowned user x).device_id ≡ x.device_id
      same_id x = ground arith

      owned : (o : Device) → o.owner_id ≡ some user → disowned user o ≡ record o { owner_id = none }
      owned o mine = ground arith

  no_claim :
      (id code : String) (o : Device)
      → o.bind_code ≡ ""
      → c.same "" code ≡ false
      → is_claimable id code o ≡ false
  no_claim id code o spent other = ground arith

  code_of : (o : Device) (user : ℕ) → is_spent o ≡ true → o.owner_id ≡ some user → o.bind_code ≡ ""
  code_of o user spent mine = ground (arith, eq_iff o.bind_code "")

  -- In well-formed tables, whatever fails: after the account of a device's owner is deleted the device
  -- is there without an owner, and no binding of it by anybody succeeds with any code but one that the
  -- collation does not tell from the empty text.
  pub delete_user-orphans :
      (user other : ℕ) (id code name room : String) (w w' : World) (o : Device)
      → IsWf w.db
      → select_one (has_id id) w.devices ≡ some o
      → o.owner_id ≡ some user
      → delete_user user w ≡ (ok tt, w')
      → c.same "" code ≡ false
      → (select_one (has_id id) w'.devices ≡ some (record o { owner_id = none }))
        × (is_ok (bind_device other id code name room w').0 ≡ false)
  delete_user-orphans user other id code name room w w' o wf found mine run unlike =
      let gone = delete_user-db user w w' run in
      let left = left_device user id w o found mine in
      let spent = code_of o user (spent_row (has_id id) w.devices o wf.codes found) mine in
      (
        rw gone left,
        bind_device-unclaimable other id code name room w' (rw gone (count_none left spent)),
      )
    where
      count_none :
          select_one (has_id id) (without_user user w.db).devices
            ≡ some (record o { owner_id = none })
          → o.bind_code ≡ ""
          → count_rows (is_claimable id code) (without_user user w.db).devices ≡ 0
      count_none left spent =
          rw
            (
              count_one (is_claimable id code) id (without_user user w.db).devices
                  (record o { owner_id = none }) (IsWf-without_user user w.db wf).device_ids
                  (λ d h. ground arith) left,
              no_claim id code (record o { owner_id = none }) spent unlike,
            )
            refl
