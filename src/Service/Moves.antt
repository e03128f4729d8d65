-- ===== src/Service/Moves.antt =====
-- The services, by what the statements do that they run.
pub mod Scenes
pub mod Wf
pub mod Reports
use taffy_assistant.Base.{
  ℕ, String, Bool, true, false, Option, none, some, List, [], ◌∷◌, ◌≡◌, refl, arith, eqb,
}
use taffy_assistant.Json.{Raw}
use taffy_assistant.Model.{User, DeviceState, Scene}
use taffy_assistant.Errors.{Error}
use taffy_assistant.Store.{Collation, World, M, Result, ok, err}
use taffy_assistant.Store.Moves.{
  Preorder, Moves, moves_pure, moves_fail, moves_if, moves_reading, moves_wrapping, moves_try,
  moves_bind,
}
use taffy_assistant.Repo.Users as UserRows
use taffy_assistant.Repo.Devices as DeviceRows
use taffy_assistant.Repo.States
use taffy_assistant.Repo.Scenes as SceneRows
use taffy_assistant.Service.Users.{Bcrypt, Outcome, returned, panicked}
use taffy_assistant.Service.Users
use taffy_assistant.Service.Devices

module _ ⦃c : Collation⦄ where
  -- What a request of a user may write.
  pub record Statements (o : Preorder) (actor : ℕ) : Type 0 where
    pub insert_user : (u : User) → Moves o (UserRows.create u)
    pub update_user :
        (nickname email avatar_url : String)
        → Moves o (UserRows.update actor nickname email avatar_url)
    pub update_password : (hash : String) → Moves o (UserRows.update_password actor hash)
    pub delete_user : Moves o (UserRows.delete actor)
    pub bind :
        (id code name room : String) → Moves o (DeviceRows.bind_to_owner id code actor name room)
    pub rename : (id name room : String) → Moves o (DeviceRows.rename id actor name room)
    pub unbind : (id : String) → Moves o (Devices.unbind_device actor id)
    pub upsert_state : (s : DeviceState) → Moves o (States.upsert s)
    pub insert_scene : (s : Scene) → Moves o (SceneRows.create s)
    pub update_scene : (s : Scene) → Moves o (SceneRows.update s)
    pub delete_scene : (id : ℕ) → Moves o (SceneRows.delete id)

module _ ⦃c : Collation⦄ {o : Preorder} where
  get_by_phone-Moves : (phone : String) → Moves o (UserRows.get_by_phone phone)
  unfolding UserRows.get_by_phone
  get_by_phone-Moves phone = moves_reading (λ w. ground arith)

  get_by_email-Moves : (email : String) → Moves o (UserRows.get_by_email email)
  unfolding UserRows.get_by_email
  get_by_email-Moves email = moves_reading (λ w. ground arith)

  user-Moves : (id : ℕ) → Moves o (UserRows.get_by_id id)
  unfolding UserRows.get_by_id
  user-Moves id = moves_reading (λ w. ground arith)

  pub device-Moves : (id : String) → Moves o (DeviceRows.get_by_id id)
  unfolding DeviceRows.get_by_id
  device-Moves id = moves_reading (λ w. ground arith)

  pub state-Moves : (id : String) → Moves o (States.get id)
  unfolding States.get
  state-Moves id = moves_reading (λ w. ground arith)

  pub scene-Moves : (id : ℕ) → Moves o (SceneRows.get_by_id id)
  unfolding SceneRows.get_by_id
  scene-Moves id = moves_reading (λ w. ground arith)

module _ ⦃c : Collation⦄ ⦃b : Bcrypt⦄ {o : Preorder} where
  taken-Moves :
      (duplicate : Error) (prefix : String) (r : Result User)
      → Moves o (Users.taken duplicate prefix r)
  taken-Moves duplicate prefix (ok u) = moves_fail
  taken-Moves duplicate prefix (err e) = moves_if _ moves_pure moves_fail

  check_phone-Moves : (phone : String) → Moves o (Users.check_phone phone)
  unfolding Users.check_phone
  check_phone-Moves phone =
      moves_if _ moves_pure (moves_bind (moves_try (get_by_phone-Moves phone)) (taken-Moves _ _))

  check_email-Moves : (email : String) → Moves o (Users.check_email email)
  unfolding Users.check_email
  check_email-Moves email =
      moves_if _ moves_pure (moves_bind (moves_try (get_by_email-Moves email)) (taken-Moves _ _))

  pub login-Moves : (phone password : String) → Moves o (Users.login phone password)
  unfolding Users.login
  login-Moves phone password =
      moves_bind (moves_wrapping _ (get_by_phone-Moves phone))
        (λ u. moves_if _ moves_pure moves_fail)

  hashed-Moves : (h : Option String) → Moves o (Users.hashed h)
  hashed-Moves none = moves_fail
  hashed-Moves (some x) = moves_pure

module _ ⦃c : Collation⦄ ⦃b : Bcrypt⦄ {o : Preorder}
    (insert_user : (u : User) → Moves o (UserRows.create u)) where
  stored-Moves :
      (phone email hash : String) (n : Outcome String) → Moves o (Users.stored phone email hash n)
  stored-Moves phone email hash panicked = moves_pure
  stored-Moves phone email hash (returned n) = moves_bind (insert_user _) (λ id. moves_pure)

  pub register-Moves :
      (salt phone email password nickname : String)
      → Moves o (Users.register salt phone email password nickname)
  unfolding Users.register
  register-Moves salt phone email password nickname = moves_bind (check_phone-Moves phone) (λ _.
      moves_bind (check_email-Moves email) (λ _.
        moves_bind (hashed-Moves (b.generate_from_password salt password))
          (λ hash. stored-Moves phone email hash (Users.nickname_of nickname phone))))

module _ ⦃c : Collation⦄ ⦃b : Bcrypt⦄ {o : Preorder} {actor : ℕ} (h : Statements o actor) where
  pub change_password-Moves :
      (salt old new : String) → Moves o (Users.change_password salt actor old new)
  unfolding Users.change_password
  change_password-Moves salt old new = moves_if _ moves_fail (
      moves_bind (moves_wrapping _ (user-Moves actor)) (λ u.
        moves_bind (moves_if _ moves_pure moves_fail)
          (λ _. moves_bind (hashed-Moves (b.generate_from_password salt new)) h.update_password)))

  pub verify_password-Moves : (password : String) → Moves o (Users.verify_password actor password)
  unfolding Users.verify_password
  verify_password-Moves password =
      moves_bind (moves_wrapping _ (user-Moves actor)) (λ u. moves_if _ moves_pure moves_fail)

  pub update_user-Moves :
      (nickname email avatar_url : String)
      → Moves o (Users.update_user actor nickname email avatar_url)
  unfolding Users.update_user
  update_user-Moves nickname email avatar_url =
      moves_if _ moves_fail (h.update_user nickname email avatar_url)

  pub delete_user-Moves : Moves o (Users.delete_user actor)
  unfolding Users.delete_user
  delete_user-Moves = h.delete_user

  pub get_user-Moves : Moves o (Users.get_user actor)
  unfolding Users.get_user
  get_user-Moves = moves_wrapping _ (user-Moves actor)

module _ ⦃c : Collation⦄ {o : Preorder} {actor : ℕ} (h : Statements o actor) where
  pub bind_device-Moves :
      (id code name room : String) → Moves o (Devices.bind_device actor id code name room)
  unfolding Devices.bind_device
  bind_device-Moves id code name room = moves_if _ moves_fail (
      moves_bind (moves_wrapping _ (device-Moves id)) (λ d.
        moves_bind (moves_wrapping _ (h.bind id code _ room))
          (λ _. moves_wrapping _ (device-Moves id))))

  pub rename_device-Moves :
      (id name room : String) → Moves o (Devices.rename_device actor id name room)
  unfolding Devices.rename_device
  rename_device-Moves id name room = moves_if _ moves_fail (
      moves_bind (moves_wrapping _ (device-Moves id))
        (λ d. moves_if _ (moves_wrapping _ (h.rename id name room)) moves_fail))

module _ ⦃c : Collation⦄ {o : Preorder} where
  pub update_device_state-Moves :
      ((s : DeviceState) → Moves o (States.upsert s))
      → (user : ℕ) (s : DeviceState) → Moves o (Devices.update_device_state user s)
  unfolding Devices.update_device_state
  update_device_state-Moves upsert user s =
      moves_bind (moves_wrapping _ (device-Moves s.device_id))
        (λ d. moves_if _ (upsert s) moves_fail)

  pub get_device_state-Moves : (id : String) → Moves o (Devices.get_device_state id)
  unfolding Devices.get_device_state
  get_device_state-Moves id = moves_wrapping _ (state-Moves id)
