-- ===== src/Service/Users/Accounts.antt =====
-- Registration and login.
use Prim.Native.String.{len}
use taffy_assistant.Base.{
  ℕ, String, true, false, none, some, List, [], ◌∷◌, ◌++◌, ◌≡◌, refl, arith, select_one, exists_row,
  ltb,
}
use taffy_assistant.Model.{User}
use taffy_assistant.Store.{Collation, World, ok}
use taffy_assistant.Repo.Users.{has_phone, has_email}
use taffy_assistant.Repo.Users
use taffy_assistant.Service.Users.{
  Bcrypt, returned, panicked, nickname_of, check_phone, check_email, register, login,
}

module _ ⦃c : Collation⦄ where
  check_phone-db :
      (phone : String) (w w' : World) (u : Unit {0})
      → check_phone phone w ≡ (ok u, w')
      → w'.db ≡ w.db
  unfolding check_phone Users.get_by_phone
  check_phone-db phone w w' u h = ground arith

  check_email-db :
      (email : String) (w w' : World) (u : Unit {0})
      → check_email email w ≡ (ok u, w')
      → w'.db ≡ w.db
  unfolding check_email Users.get_by_email
  check_email-db email w w' u h = ground arith

  select_one-new :
      (phone : String) (us : List User) (u : User)
      → exists_row (has_phone phone) us ≡ false
      → u.phone ≡ phone
      → select_one (has_phone phone) (us ++ u ∷ []) ≡ some u
  unfolding select_one exists_row
  select_one-new phone [] u h same = ground (arith, c.same_refl phone)
  select_one-new phone (x ∷ us) u h same = ground (arith, select_one-new phone us u)

module _ ⦃c : Collation⦄ ⦃b : Bcrypt⦄ where
  -- What a registration that succeeds adds.
  pub register-writes :
      (salt phone email password nickname : String) (w w' : World) (id : ℕ)
      → register salt phone email password nickname w ≡ (ok (returned id), w')
      → (hash : String) × (chosen : String) × (b.generate_from_password salt password ≡ some hash)
        × (nickname_of nickname phone ≡ returned chosen)
        × (exists_row (has_phone phone) w.users ≡ false)
        × (exists_row (has_email email) w.users ≡ false)
        × (w'.users
            ≡ w.users
              ++ (record {
                user_id = id;
                phone = phone;
                email = email;
                password_hash = hash;
                nickname = chosen;
                avatar_url = "";
              })
                ∷ [])
  unfolding register check_phone check_email Users.get_by_phone Users.get_by_email Users.create
  register-writes salt phone email password nickname w w' id h = ground arith

  pub login-found :
      (phone password : String) (w : World) (u : User)
      → w.faults ≡ []
      → select_one (has_phone phone) w.users ≡ some u
      → b.compare_hash_and_password u.password_hash password ≡ true
      → login phone password w ≡ (ok u, w)
  unfolding login Users.get_by_phone
  login-found phone password w u calm found fits = ground arith

  -- After a registration that succeeded, while the database answers, a login with the phone and the
  -- password that were registered returns the user of the registration: its id, phone and email.
  pub login-register :
      (salt phone email password nickname : String) (w w' : World) (id : ℕ)
      → register salt phone email password nickname w ≡ (ok (returned id), w')
      → w'.faults ≡ []
      → (u : User) × (login phone password w' ≡ (ok u, w'))
        × (u.user_id ≡ id)
        × (u.phone ≡ phone)
        × (u.email ≡ email)
  login-register salt phone email password nickname w w' id h calm =
      let (hash, chosen, hashed, _, fresh, _, writes) =
        register-writes salt phone email password nickname w w' id h in
      let u : User = record {
        user_id = id;
        phone = phone;
        email = email;
        password_hash = hash;
        nickname = chosen;
        avatar_url = "";
      } in
      (
        u,
        login-found phone password w' u calm (rw writes (select_one-new phone w.users u fresh refl))
            (b.compare_generated salt password hash hashed),
        refl,
        refl,
        refl,
      )

  has_email-new :
      (email : String) (us : List User) (u : User)
      → u.email ≡ email
      → exists_row (has_email email) (us ++ u ∷ []) ≡ true
  unfolding exists_row
  has_email-new email [] u same = ground (arith, c.same_refl email)
  has_email-new email (x ∷ us) u same = ground (arith, has_email-new email us u same)

  -- After a registration that succeeded, no other with the same email does; so that after one without
  -- an email, which is stored as the empty text, every other without an email fails.
  pub register-email_once :
      (salt phone email password nickname salt' phone' password' nickname' : String)
      (w w' w'' : World) (id id' : ℕ)
      → register salt phone email password nickname w ≡ (ok (returned id), w')
      → ¬ (register salt' phone' email password' nickname' w' ≡ (ok (returned id'), w''))
  register-email_once salt phone email password nickname salt' phone' password' nickname' w w' w''
        id id' h k =
      let (hash, chosen, _, _, _, _, writes) =
        register-writes salt phone email password nickname w w' id h in
      let (_, _, _, _, _, fresh, _) =
        register-writes salt' phone' email password' nickname' w' w'' id' k in
      contradiction email w.users w'.users _ writes refl fresh
    where
      contradiction :
          (email : String) (us us' : List User) (u : User)
          → us' ≡ us ++ u ∷ []
          → u.email ≡ email
          → ¬ (exists_row (has_email email) us' ≡ false)
      contradiction email us us' u writes same fresh = ground (arith, has_email-new email us u same)

  -- While the database answers, a registration with a phone of fewer than four bytes that is not in
  -- use, with no nickname, an email that is not in use and a password that can be hashed panics.
  pub register-short_phone :
      (salt phone email password hash : String) (w : World)
      → w.faults ≡ []
      → ltb (len phone) 4 ≡ true
      → select_one (has_phone phone) w.users ≡ none
      → select_one (has_email email) w.users ≡ none
      → b.generate_from_password salt password ≡ some hash
      → register salt phone email password "" w ≡ (ok panicked, w)
  unfolding register check_phone check_email Users.get_by_phone Users.get_by_email nickname_of
  register-short_phone salt phone email password hash w calm short no_phone no_email hashed =
      ground arith
