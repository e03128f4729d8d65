-- ===== src/Jwt.antt =====
-- Tokens: server/internal/middleware/jwt.go. Times are in seconds, texts are lists of code points.
pub mod Revocation
use taffy_assistant.Base.{
  ℕ, ◌+◌, Bool, true, false, Option, none, some, List, [], ◌∷◌, ◌++◌, ◌≡◌, ◌≢◌, ◌<◌, eqb, ltb,
  if◌then◌else◌, ◌&&◌,
}

abbrev pub Text : Type 0
Text = List ℕ

-- `Claims`, but for the fields that nothing reads.
pub record Claims : Type 0 where
  pub user_id : ℕ
  pub expires_at : ℕ

-- github.com/golang-jwt: a token that was signed with the secret is verified as long as it has not
-- expired.
pub record JwtLibrary : Type 0 where
  pub signed_string : Text → Claims → Text
  pub parse_with_claims : Text → Text → ℕ → Option Claims
  pub verified :
      (secret : Text) (c : Claims) (now : ℕ)
      → parse_with_claims secret (signed_string secret c) now
        ≡ (if ltb now c.expires_at then some c else none)

-- Redis: a key that is set with a time to live is there until that has passed, and setting a key
-- touches no other.
pub record Redis : Type 1 where
  pub Store : Type 0
  pub set : Text → ℕ → ℕ → Store → Store
  pub exists : Text → ℕ → Store → Bool
  pub kept :
      (k : Text) (ttl now t : ℕ) (s : Store) → t < now + ttl → exists k t (set k ttl now s) ≡ true
  pub others :
      (k j : Text) (ttl now t : ℕ) (s : Store) → j ≢ k → exists k t (set j ttl now s) ≡ exists k t s

-- The code points of "token:blacklist:".
abbrev pub blacklist_prefix : Text
blacklist_prefix =
    116 ∷ 111 ∷ 107 ∷ 101 ∷ 110 ∷ 58 ∷ 98 ∷ 108 ∷ 97 ∷ 99 ∷ 107 ∷ 108 ∷ 105 ∷ 115 ∷ 116 ∷ 58 ∷ []

abbrev pub blacklist_key : Text → Text
blacklist_key token = blacklist_prefix ++ token

module _ ⦃j : JwtLibrary⦄ where
  -- `GenerateAccessToken`.
  unfoldable pub generate_access_token : Text → ℕ → ℕ → ℕ → Text
  generate_access_token secret now user ttl =
      j.signed_string secret (record { user_id = user; expires_at = now + ttl })

module _ (r : Redis) where
  open r use {Store, set, exists}

  -- `RevokeToken`: nothing where there is no Redis.
  unfoldable pub revoke_token : Text → ℕ → ℕ → Option Store → Option Store
  revoke_token token ttl now none = none
  revoke_token token ttl now (some s) = some (set (blacklist_key token) ttl now s)

  unfoldable pub is_revoked : Text → ℕ → Option Store → Bool
  is_revoked token now none = false
  is_revoked token now (some s) = exists (blacklist_key token) now s

  abbrev unrevoked : Bool → Option Claims → Option Claims
  unrevoked true c = none
  unrevoked false c = c

  abbrev verified : Option Claims → Bool → Option Claims
  verified none revoked = none
  verified (some c) revoked = unrevoked revoked (some c)

  -- `ParseToken`, where Redis answers.
  unfoldable pub parse_token : ⦃j : JwtLibrary⦄ → Text → Text → ℕ → Option Store → Option Claims
  unfolding is_revoked
  parse_token ⦃j⦄ secret token now store =
      verified (j.parse_with_claims secret token now) (is_revoked token now store)
