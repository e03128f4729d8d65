-- ===== src/Service/Moves/Wf.antt =====
-- The statements that a request may run keep the tables well formed.
use taffy_assistant.Base.{
  ℕ, suc, String, true, false, some, [], ◌∷◌, ◌++◌, ◌≡◌, refl, ◌⊎◌, inl, inr, arith, eq_iff,
  exists_row, update_rows,
}
use taffy_assistant.Model.{User, DeviceState, Scene, online}
use taffy_assistant.Store.{Collation, Db, Result, ok, err}
use taffy_assistant.Store.Moves.{
  Preorder, Moves, moves_pure, moves_fail, moves_if, moves_wrapping, moves_statement, moves_bind,
}
use taffy_assistant.Repo.Users
use taffy_assistant.Repo.Users.{is_user}
use taffy_assistant.Repo.Devices
use taffy_assistant.Repo.Devices.{
  has_id, is_claimable, claimed, is_renamable, bind_rows, rename_rows,
}
use taffy_assistant.Repo.Devices.Writes.{bind_rows-db, rename_rows-db}
use taffy_assistant.Repo.States.{
  is_state_of, overwritten, in_columns, set_row, set_columns, upsert_row,
}
use taffy_assistant.Repo.States
use taffy_assistant.Repo.Scenes.{is_scene, insert_scene, update_scene}
use taffy_assistant.Repo.Scenes as SceneRows
use taffy_assistant.Repo.Wf.{IsWf}
use taffy_assistant.Repo.Wf.Users.{
  IsWf-new_user, IsWf-changed_users, IsWf-without_user, IsWf-new_scene, IsWf-changed_scenes,
  IsWf-fewer_scenes,
}
use taffy_assistant.Repo.Wf.Devices.{
  IsWf-changed_devices, IsWf-without_device, IsWf-new_state, IsWf-changed_states,
}
use taffy_assistant.Service.Devices.{unbind_device}
use taffy_assistant.Service.Moves.{Statements, device-Moves}

module _ ⦃c : Collation⦄ where
  abbrev pub well_formed : Preorder
  well_formed = record {
    rel = λ d e. IsWf d → IsWf e;
    stay = λ d w. w;
    chain = λ d e f h k w. k (h w);
  }

  insert_user-db :
      (u : User) (d : Db)
      → ((Users.insert_user u d).1 ≡ d)
        ⊎ ((Users.insert_user u d).1 ≡ record d {
          users = d.users ++ record u { user_id = d.next_user } ∷ [];
          next_user = suc d.next_user;
        })
  unfolding Users.insert_user
  insert_user-db u d = ground arith

  pub create-Wf : (u : User) → Moves well_formed (Users.create u)
  unfolding Users.create
  create-Wf u = moves_wrapping _ (
      moves_statement (Users.insert_user u) (λ d w. elim (insert_user-db u d) [
        | inl same ↦ rw same w
        | inr new ↦ rw new (IsWf-new_user u d w)
      ]))

  update_user-db :
      (id : ℕ) (nickname email avatar_url : String) (d : Db)
      → ((Users.update_user id nickname email avatar_url d).1 ≡ d)
        ⊎ ((Users.update_user id nickname email avatar_url d).1 ≡ record d {
          users =
              update_rows
                (is_user id)
                (λ u. record u { nickname = nickname; email = email; avatar_url = avatar_url })
                d.users;
        })
  unfolding Users.update_user
  update_user-db id nickname email avatar_url d = ground arith

  update_user-Wf :
      (id : ℕ) (nickname email avatar_url : String)
      → Moves well_formed (Users.update id nickname email avatar_url)
  unfolding Users.update
  update_user-Wf id nickname email avatar_url = moves_wrapping _ (
      moves_statement (Users.update_user id nickname email avatar_url) (λ d w.
        elim (update_user-db id nickname email avatar_url d) [
          | inl same ↦ rw same w
          | inr set ↦ rw set (IsWf-changed_users (is_user id) _ d (λ u. refl) w)
        ]))

  update_password-Wf : (id : ℕ) (hash : String) → Moves well_formed (Users.update_password id hash)
  unfolding Users.update_password
  update_password-Wf id hash = moves_wrapping _ (
      moves_statement _ (λ d w.
        IsWf-changed_users (is_user id) (λ u. record u { password_hash = hash }) d (λ u. refl) w))

  delete_user-Wf : (id : ℕ) → Moves well_formed (Users.delete id)
  unfolding Users.delete
  delete_user-Wf id =
      moves_wrapping _
        (moves_statement (λ d. (ok tt, Users.without_user id d)) (IsWf-without_user id))

  bind-Wf :
      (user : ℕ) (id code name room : String)
      → Moves well_formed (Devices.bind_to_owner id code user name room)
  unfolding Devices.bind_to_owner
  bind-Wf user id code name room =
      moves_bind
        (moves_wrapping _ (
          moves_statement (bind_rows id code user name room) (λ d w.
            elim (bind_rows-db id code user name room d) [
              | inl same ↦ rw same w
              | inr (known, n, r, set) ↦ rw set (
                  IsWf-changed_devices (is_claimable id code) (claimed user n r) d (λ x. refl)
                    (λ x e h. known) (λ x e h. ground (arith, eq_iff "" "")) w)
            ])))
        (λ n. moves_if _ moves_fail moves_pure)

  rename-Wf :
      (user : ℕ) (id name room : String) → Moves well_formed (Devices.rename id user name room)
  unfolding Devices.rename
  rename-Wf user id name room =
      moves_bind
        (moves_wrapping _ (
          moves_statement (rename_rows id user name room) (λ d w.
            elim (rename_rows-db id user name room d) [
              | inl same ↦ rw same w
              | inr (n, r, set) ↦ rw set (
                  IsWf-changed_devices (is_renamable id user) (λ x. record x { name = n; room = r })
                    d (λ x. refl) (λ x e h. h) (λ x e h. h) w)
            ])))
        (λ n. moves_if _ moves_fail moves_pure)

  delete_device-Wf : (id : String) → Moves well_formed (Devices.delete id)
  unfolding Devices.delete
  delete_device-Wf id =
      moves_wrapping _
        (moves_statement (λ d. (ok tt, Devices.without_device id d)) (IsWf-without_device id))

  unbind-Wf : (user : ℕ) (id : String) → Moves well_formed (unbind_device user id)
  unfolding unbind_device
  unbind-Wf user id = moves_if _ moves_fail (
      moves_bind (moves_wrapping _ (device-Moves id))
        (λ d. moves_if _ (delete_device-Wf id) moves_fail))

  set_row-db :
      (s : DeviceState) (d : Db)
      → ((set_row s d).1 ≡ d)
        ⊎ ((exists_row (has_id s.device_id) d.devices ≡ true)
            × (exists_row (is_state_of s.device_id) d.states ≡ false)
            × ((set_row s d).1 ≡ record d { states = d.states ++ s ∷ [] }))
        ⊎ ((set_row s d).1
            ≡ record d { states = update_rows (is_state_of s.device_id) (overwritten s) d.states })
  unfolding set_row
  set_row-db s d = ground arith

  set_row-IsWf : (s : DeviceState) (d : Db) → IsWf d → IsWf (set_row s d).1
  set_row-IsWf s d w = elim (set_row-db s d) [
    | inl same ↦ rw same w
    | inr (inl (known, fresh, new)) ↦ rw new (IsWf-new_state s d known fresh w)
    | inr (inr set) ↦
        rw set (IsWf-changed_states (is_state_of s.device_id) (overwritten s) d (λ x. refl) w)
  ]

  set_columns-IsWf : (r : Result DeviceState) (d : Db) → IsWf d → IsWf (set_columns r d).1
  set_columns-IsWf (err e) d w = w
  set_columns-IsWf (ok s) d w = set_row-IsWf s d w

  pub upsert-Wf : (s : DeviceState) → Moves well_formed (States.upsert s)
  unfolding States.upsert upsert_row
  upsert-Wf s = moves_wrapping _ (moves_statement (upsert_row s) (set_columns-IsWf (in_columns s)))

  -- A heartbeat changes when a device was seen, and its status.
  pub update_last_seen-Wf : (id : String) → Moves well_formed (Devices.update_last_seen id)
  unfolding Devices.update_last_seen
  update_last_seen-Wf id = record {
    along = λ w.
        (moves_wrapping {o = well_formed} _ (
            moves_statement
              (λ d. (
                ok tt,
                record d {
                  devices =
                      update_rows (has_id id)
                        (λ x. record x { last_seen = some w.now; status = online }) d.devices;
                },
              ))
              (λ d k.
                IsWf-changed_devices (has_id id)
                  (λ x. record x { last_seen = some w.now; status = online }) d (λ x. refl)
                  (λ x e h. h) (λ x e h. h) k))).along
          w;
  }

  insert_scene-db :
      (s : Scene) (d : Db)
      → ((insert_scene s d).1 ≡ d)
        ⊎ ((exists_row (is_user s.user_id) d.users ≡ true)
            × ((insert_scene s d).1 ≡ record d {
              scenes = d.scenes ++ record s { scene_id = d.next_scene } ∷ [];
              next_scene = suc d.next_scene;
            }))
  unfolding insert_scene
  insert_scene-db s d = ground arith

  create_scene-Wf : (s : Scene) → Moves well_formed (SceneRows.create s)
  unfolding SceneRows.create
  create_scene-Wf s = moves_wrapping _ (
      moves_statement (insert_scene s) (λ d w. elim (insert_scene-db s d) [
        | inl same ↦ rw same w
        | inr (known, new) ↦ rw new (IsWf-new_scene s (suc d.next_scene) d known w)
      ]))

  update_scene-db :
      (s : Scene) (d : Db)
      → ((update_scene s d).1 ≡ d)
        ⊎ ((update_scene s d).1 ≡ record d {
          scenes =
              update_rows
                (is_scene s.scene_id)
                (λ old. record old { name = s.name; command_list = s.command_list })
                d.scenes;
        })
  unfolding update_scene
  update_scene-db s d = ground arith

  update_scene-Wf : (s : Scene) → Moves well_formed (SceneRows.update s)
  unfolding SceneRows.update
  update_scene-Wf s = moves_wrapping _ (
      moves_statement (update_scene s) (λ d w. elim (update_scene-db s d) [
        | inl same ↦ rw same w
        | inr set ↦ rw set (IsWf-changed_scenes (is_scene s.scene_id) _ d (λ x. refl) w)
      ]))

  delete_scene-Wf : (id : ℕ) → Moves well_formed (SceneRows.delete id)
  unfolding SceneRows.delete
  delete_scene-Wf id =
      moves_wrapping _ (moves_statement _ (λ d w. IsWf-fewer_scenes (is_scene id) d w))

  pub well_formed-Statements : (user : ℕ) → Statements well_formed user
  well_formed-Statements user = record {
    insert_user = create-Wf;
    update_user = update_user-Wf user;
    update_password = update_password-Wf user;
    delete_user = delete_user-Wf user;
    bind = bind-Wf user;
    rename = λ id name room. rename-Wf user id name room;
    unbind = unbind-Wf user;
    upsert_state = upsert-Wf;
    insert_scene = create_scene-Wf;
    update_scene = update_scene-Wf;
    delete_scene = delete_scene-Wf;
  }
