-- ===== src/Lifecycle/Statements.antt =====
-- What the statements of the server do to the life of a device.
use taffy_assistant.Base.{
  ℕ, String, Bool, true, false, Option, none, some, List, ◌≡◌, refl, ◌⊎◌, inl, inr, arith,
  select_one, ap, select_one-update, select_one-delete, select_one-delete_same, update_rows,
  Bool-cases, if◌then◌else◌,
}
use taffy_assistant.Model.{Device}
use taffy_assistant.Store.{Collation, Db, World, M, ok}
use taffy_assistant.Store.Moves.{
  Preorder, Moves, moves_pure, moves_fail, moves_if, moves_wrapping, moves_statement, moves_bind,
}
use taffy_assistant.Repo.Users
use taffy_assistant.Repo.Devices.Writes.{bind_rows-db, rename_rows-db}
use taffy_assistant.Repo.Devices.{
  has_id, is_owner, is_claimable, claimed, bind_rows, bind_to_owner, without_device,
}
use taffy_assistant.Repo.Devices
use taffy_assistant.Repo.States
use taffy_assistant.Repo.Scenes
use taffy_assistant.Service.Devices.{unbind_device}
use taffy_assistant.Service.Moves.{Statements}
use taffy_assistant.Lifecycle.{
  Phase, free, owned, phase, phase_of, bind, unbind, leave, Course, stop, go, join,
}

module _ ⦃c : Collation⦄ where
  -- Every device moves along the steps of the user.
  abbrev pub lifecycle : ℕ → Preorder
  lifecycle user = record {
    rel = λ d e. (id : String) → Course user (phase id d) (phase id e);
    stay = λ d id. stop;
    chain = λ d e f h k id. join (h id) (k id);
  }

  Course-same : {user : ℕ} {p q : Phase} → q ≡ p → Course user p q
  Course-same e = rw e stop

  -- Statements that leave the device table alone.
  moves_elsewhere :
      {user : ℕ} {A : Type 0} {m : M A}
      → ((w : World) → (m w).1.devices ≡ w.devices)
      → Moves (lifecycle user) m
  moves_elsewhere h = record { along = λ w id. rw (h w) stop }

  updated_one :
      (user : ℕ) (p : Device → Bool) (f : Device → Device) (o : Option Device)
      → ((x : Device) → p x ≡ true → Course user (phase_of (some x)) (phase_of (some (f x))))
      → Course user
          (phase_of o)
          (phase_of (elim o [ none ↦ none | some x ↦ some (if p x then f x else x) ]))
  updated_one user p f none h = stop
  updated_one user p f (some x) h = elim (Bool-cases (p x)) [
    | inl hit ↦ rw hit (h x hit)
    | inr miss ↦ rw miss stop
  ]

  -- An update of rows that keeps their ids moves each device as it moves its row.
  updated_phase :
      (user : ℕ) (p : Device → Bool) (f : Device → Device) (ds : List Device) (id : String)
      → ((x : Device) → (f x).device_id ≡ x.device_id)
      → ((x : Device) → p x ≡ true → Course user (phase_of (some x)) (phase_of (some (f x))))
      → Course user
          (phase_of (select_one (has_id id) ds))
          (phase_of (select_one (has_id id) (update_rows p f ds)))
  updated_phase user p f ds id keep h =
      rw (select_one-update (has_id id) p f ds (λ x. ap (λ i. c.same i id) (keep x)))
        (updated_one user p f (select_one (has_id id) ds) h)

  claimed_phase :
      (user : ℕ) (id code name room : String) (x : Device)
      → is_claimable id code x ≡ true
      → Course user (phase_of (some x)) (phase_of (some (claimed user name room x)))
  claimed_phase user id code name room x h = rw (unowned h) (go bind stop)
    where
      unowned : is_claimable id code x ≡ true → phase_of (some x) ≡ free
      unowned h = ground arith

  Course-phase :
      {user : ℕ} {p : Phase} {es ds : List Device} (id : String)
      → es ≡ ds
      → Course user p (phase_of (select_one (has_id id) ds))
      → Course user p (phase_of (select_one (has_id id) es))
  Course-phase id h k = rw h k

  bind-Moves :
      (user : ℕ) (id code name room : String)
      → Moves (lifecycle user) (bind_to_owner id code user name room)
  unfolding bind_to_owner
  bind-Moves user id code name room =
      moves_bind
        (moves_wrapping _ (
          moves_statement (bind_rows id code user name room) (λ d j.
            elim (bind_rows-db id code user name room d) [
              | inl same ↦ Course-phase j (ap (λ e. e.devices) same) stop
              | inr (known, n, r, set) ↦ Course-phase j (ap (λ e. e.devices) set) (
                  updated_phase user (is_claimable id code) (claimed user n r) d.devices j
                    (λ x. refl) (claimed_phase user id code n r))
            ])))
        (λ n. moves_if _ moves_fail moves_pure)

  rename-Moves :
      (user : ℕ) (id name room : String) → Moves (lifecycle user) (Devices.rename id user name room)
  unfolding Devices.rename
  rename-Moves user id name room =
      moves_bind
        (moves_wrapping _ (
          moves_statement (Devices.rename_rows id user name room) (λ d j.
            elim (rename_rows-db id user name room d) [
              | inl same ↦ Course-phase j (ap (λ e. e.devices) same) stop
              | inr (n, r, set) ↦ Course-phase j (ap (λ e. e.devices) set) (
                  updated_phase user (Devices.is_renamable id user)
                    (λ x. record x { name = n; room = r }) d.devices j (λ x. refl) (λ x h. stop))
            ])))
        (λ n. moves_if _ moves_fail moves_pure)

  disowned_phase :
      (user : ℕ) (x : Device)
      → Course user (phase_of (some x)) (phase_of (some (Users.disowned user x)))
  disowned_phase user x = elim (Bool-cases (is_owner x.owner_id user)) [
    | inl mine ↦ rw mine (rw (theirs mine) (go leave stop))
    | inr other ↦ rw other stop
  ]
    where
      theirs : is_owner x.owner_id user ≡ true → phase_of (some x) ≡ owned user
      theirs mine = ground arith

  delete_user-Moves : (user : ℕ) → Moves (lifecycle user) (Users.delete user)
  unfolding Users.delete
  delete_user-Moves user = moves_wrapping _ (
      moves_statement (λ db. (ok tt, Users.without_user user db))
        (λ d j.
          updated_phase user (λ _. true) (Users.disowned user) d.devices j (disowned_id user)
            (λ x h. disowned_phase user x)))
    where
      disowned_id : (user : ℕ) (x : Device) → (Users.disowned user x).device_id ≡ x.device_id
      disowned_id user x = ground arith

  -- The owner is looked at, and then the device goes.
  unbind_device-db :
      (user : ℕ) (id : String) (w : World)
      → ((unbind_device user id w).1.db ≡ w.db)
        ⊎ (((unbind_device user id w).1.db ≡ without_device id w.db) × (phase id w.db ≡ owned user))
  unfolding unbind_device Devices.get_by_id Devices.delete
  unbind_device-db user id w = ground arith

  -- Ids that the collation does not tell apart name one device.
  same_id : (id j : String) → c.same j id ≡ true → (x : Device) → has_id j x ≡ has_id id x
  same_id id j h x =
      ground
        (arith, c.same_sym j id h, c.same_trans x.device_id j id, c.same_trans x.device_id id j)

  other_id :
      (id j : String) → c.same j id ≡ false → (x : Device) → has_id j x ≡ true → has_id id x ≡ false
  other_id id j h x k = ground (arith, c.same_sym x.device_id j k, c.same_trans j x.device_id id)

  deleted_phase :
      (user : ℕ) (id j : String) (d : Db)
      → phase id d ≡ owned user
      → Course user (phase j d) (phase j (without_device id d))
  deleted_phase user id j d h = elim (Bool-cases (c.same j id)) [
    | inl same ↦
        let e : has_id j ≡ has_id id = λ i x. same_id id j same x i in
        rw (e, h, select_one-delete_same (has_id id) d.devices) (go unbind stop)
    | inr other ↦ rw (select_one-delete (has_id j) (has_id id) d.devices (other_id id j other)) stop
  ]

  unbind-Moves : (user : ℕ) (id : String) → Moves (lifecycle user) (unbind_device user id)
  unbind-Moves user id = record {
    along = λ w j. elim (unbind_device-db user id w) [
      | inl same ↦ Course-phase j (ap (λ d. d.devices) same) stop
      | inr (gone, mine) ↦
          Course-phase j (ap (λ d. d.devices) gone) (deleted_phase user id j w.db mine)
    ];
  }

  pub lifecycle-Statements : (user : ℕ) → Statements (lifecycle user) user
  unfolding Users.create Users.update Users.update_password States.upsert States.upsert_row
      States.set_row Scenes.create Scenes.update Scenes.delete
  lifecycle-Statements user = record {
    insert_user = λ u. moves_elsewhere (λ w. ground arith);
    update_user = λ n e a. moves_elsewhere (λ w. ground arith);
    update_password = λ hash. moves_elsewhere (λ w. ground arith);
    delete_user = delete_user-Moves user;
    bind = bind-Moves user;
    rename = rename-Moves user;
    unbind = unbind-Moves user;
    upsert_state = λ s. moves_elsewhere (λ w. ground arith);
    insert_scene = λ s. moves_elsewhere (λ w. ground arith);
    update_scene = λ s. moves_elsewhere (λ w. ground arith);
    delete_scene = λ id. moves_elsewhere (λ w. ground arith);
  }
