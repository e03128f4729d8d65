-- ===== src/Http/Accounts/Tokens.antt =====
-- The tokens that the handlers give out, at the door of the handlers behind `RequireAuth`.
use taffy_assistant.Base.{
  ℕ, ◌+◌, ◌≤◌, String, true, false, Option, some, [], ◌∷◌, ◌++◌, ◌≡◌, refl, map, arith, eqb, ltb,
  leb, All, subst,
}
use taffy_assistant.Errors.{root}
use taffy_assistant.Json.{Raw, fold, same_codes}
use taffy_assistant.Model.{User}
use taffy_assistant.Store.{Collation, World, M, Result, ok, err, try, ◌>>=◌}
use taffy_assistant.Service.Users.{Bcrypt, Outcome, returned, panicked}
use taffy_assistant.Service.Users
use taffy_assistant.Service.Users.Accounts.{register-writes}
use taffy_assistant.Jwt.{
  Text, JwtLibrary, Redis, generate_access_token, parse_token, is_revoked, revoke_token,
}
use taffy_assistant.Jwt.Revocation.{parse_token-revoke_token}
use taffy_assistant.Http.Reply.{Reply, api_error, done, token, aborted}
use taffy_assistant.Http.Requests.{decode_register}
use taffy_assistant.Http.Accounts.{
  AuthHandler, register, registered, token_reply, logout, split_n, is_bearer, bearer_token,
}
use taffy_assistant.Http.Guard.{require_auth, with_token}

no_space :
    (s ts : Text)
    → same_codes (map fold s) ts ≡ true
    → All (λ t. leb t 32 ≡ false) ts
    → All (λ x. eqb x 32 ≡ false) s
unfolding same_codes fold
no_space [] ts h k = tt
no_space (x ∷ s) [] h k = elim (bad h) [ ]
  where
    bad : ¬ (false ≡ true)
    bad e = cc
no_space (x ∷ s) (t ∷ ts) h k = (ground arith, no_space s ts (ground arith) k.1)

split_n-append : (s t : Text) → All (λ x. eqb x 32 ≡ false) s → split_n (s ++ 32 ∷ t) ≡ some (s, t)
unfolding split_n
split_n-append [] t h = refl
split_n-append (x ∷ s) t h = rw (h.0, split_n-append s t h.1) refl

bearer_token-made : (s t : Text) → is_bearer s ≡ true → bearer_token (s ++ 32 ∷ t) ≡ some t
unfolding bearer_token is_bearer
bearer_token-made s t h =
    rw (split_n-append s t (no_space s _ h (refl, (refl, (refl, (refl, (refl, (refl, tt))))))), h)
      refl

module _ ⦃j : JwtLibrary⦄ (r : Redis) {A : Type 0} (refuse : Reply → M A)
    (next : Option ℕ → M A) where
  guarded :
      (secret : Text) (store : Option r.Store) (s t : Text) (w : World)
      → is_bearer s ≡ true
      → require_auth r refuse next secret store (s ++ 32 ∷ t) w
        ≡ with_token r refuse next secret store (some t) w
  unfolding require_auth is_bearer same_codes
  guarded secret store [] t w h = elim (bad h) [ ]
    where
      bad : ¬ (false ≡ true)
      bad e = cc
  guarded secret store (x ∷ s) t w h = rw (bearer_token-made (x ∷ s) t h) refl

  admitted :
      (secret : Text) (store : Option r.Store) (s : Text) (made user ttl : ℕ) (w : World)
      → is_bearer s ≡ true
      → ltb w.now (made + ttl) ≡ true
      → let t = generate_access_token secret made user ttl in
        is_revoked r t w.now store ≡ false
        → require_auth r refuse next secret store (s ++ 32 ∷ t) w ≡ next (some user) w
  unfolding generate_access_token parse_token
  admitted secret store s made user ttl w h early kept =
      rw
        (
          guarded secret store s (generate_access_token secret made user ttl) w h,
          j.verified secret (record { user_id = user; expires_at = made + ttl }) w.now,
          early,
          kept,
        )
        refl

module _ ⦃c : Collation⦄ ⦃b : Bcrypt⦄ ⦃j : JwtLibrary⦄ (h : AuthHandler) where
  registered-token :
      (x : Result (Outcome ℕ) × World) (t : Text) (status n : ℕ) (w' : World)
      → (try (λ _. x) >>= registered h) x.1 ≡ (ok (token status t n), w')
      → (id : ℕ) × (x ≡ (ok (returned id), w'))
        × (t ≡ generate_access_token h.secret w'.now id h.access_ttl)
  unfolding token_reply root
  registered-token (err e, w) t status n w' k = ground arith
  registered-token (ok panicked, w) t status n w' k = elim (bad k) [ ]
    where
      bad : ¬ (◌≡◌ {A = Result Reply × World} (ok aborted, w) (ok (token status t n), w'))
      bad e = cc
  registered-token (ok (returned id), w) t status n w' k = (id, ground arith, ground arith)

  register-run :
      (salt : String) (body : Raw) (t : Text) (status n : ℕ) (w w' : World)
      → register h salt body w ≡ (ok (token status t n), w')
      → (id : ℕ) × (let (q, e) = decode_register body in
          Users.register salt q.phone q.email q.password q.nickname w ≡ (ok (returned id), w'))
        × (t ≡ generate_access_token h.secret w'.now id h.access_ttl)
  unfolding register
  register-run salt body t status n w w' k =
      let (q, e) = decode_register body in
      registered-token (Users.register salt q.phone q.email q.password q.nickname w) t status n w'
        (ground arith)

  -- A registration that is answered with a token has added one user, at the end of the table, and from
  -- then on until the token expires, unless it is revoked, `RequireAuth` lets a request with that token
  -- through to the handler as that user: the scheme may be written in any case.
  pub require_auth-register :
      (r : Redis) {A : Type 0} (refuse : Reply → M A) (next : Option ℕ → M A) (salt : String)
      (body : Raw) (t scheme : Text) (status n : ℕ) (w w' later : World) (store : Option r.Store)
      → register h salt body w ≡ (ok (token status t n), w')
      → is_bearer scheme ≡ true
      → ltb later.now (w'.now + h.access_ttl) ≡ true
      → is_revoked r t later.now store ≡ false
      → (u : User) × (w'.users ≡ w.users ++ u ∷ [])
        × (require_auth r refuse next h.secret store (scheme ++ 32 ∷ t) later
            ≡ next (some u.user_id) later)
  require_auth-register r refuse next salt body t scheme status n w w' later store run bearer early
        kept =
      let (q, e) = decode_register body in
      let (id, stored, made) = register-run salt body t status n w w' run in
      let (hash, chosen, _, _, _, _, writes) =
        register-writes salt q.phone q.email q.password q.nickname w w' id stored in
      (
        record {
          user_id = id;
          phone = q.phone;
          email = q.email;
          password_hash = hash;
          nickname = chosen;
          avatar_url = "";
        },
        writes,
        let_in id made,
      )
    where
      let_in :
          (id : ℕ)
          → t ≡ generate_access_token h.secret w'.now id h.access_ttl
          → require_auth r refuse next h.secret store (scheme ++ 32 ∷ t) later
            ≡ next (some id) later
      let_in id made = rw made (
          admitted r refuse next h.secret store scheme w'.now id h.access_ttl later bearer early
            (subst (λ t. is_revoked r t later.now store ≡ false) made kept))

module _ ⦃j : JwtLibrary⦄ (h : AuthHandler) where
  -- While Redis answers, a logout with a token of this server succeeds, and from then on, before and
  -- after the token expires, `RequireAuth` refuses every request with that token, in the same words,
  -- however the scheme is written.
  pub require_auth-logout :
      (r : Redis) {A : Type 0} (refuse : Reply → M A) (next : Option ℕ → M A) (first second : Text)
      (made user now : ℕ) (store : r.Store) (later : World)
      → is_bearer first ≡ true
      → is_bearer second ≡ true
      → made ≤ now
      → let t = generate_access_token h.secret made user h.access_ttl in
        let (reply, store') = logout r h (first ++ 32 ∷ t) now false (some store) in
        (reply ≡ done)
        × (require_auth r refuse next h.secret store' (second ++ 32 ∷ t) later
            ≡ refuse (api_error 401 "invalid or expired token") later)
  unfolding logout
  require_auth-logout r refuse next first second made user now store later one two old =
      let t = generate_access_token h.secret made user h.access_ttl in
      rw (bearer_token-made first t one) (
        refl,
        rw
            (
              guarded r refuse next h.secret (revoke_token r t h.access_ttl now (some store)) second
                  t later two,
              parse_token-revoke_token r h.secret made user h.access_ttl now later.now store old,
            )
            refl,
      )
