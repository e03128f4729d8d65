-- ===== src/Jwt/Revocation.antt =====
-- Tokens that were revoked.
use taffy_assistant.Base.{ℕ, ◌+◌, ◌≤◌, none, some, ◌≡◌, refl, arith, ltb, inl, inr, Bool-cases}
use taffy_assistant.Jwt.{
  Text, JwtLibrary, Redis, blacklist_key, generate_access_token, revoke_token, parse_token,
}

module _ ⦃j : JwtLibrary⦄ (r : Redis) where
  -- A token that is revoked at or after the time it was made, with the time to live that it was made
  -- with, is not accepted from then on: neither before it expires nor after.
  pub parse_token-revoke_token :
      (secret : Text) (made user ttl now t : ℕ) (s : r.Store)
      → made ≤ now
      → let token = generate_access_token secret made user ttl in
        parse_token r secret token t (revoke_token r token ttl now (some s)) ≡ none
  unfolding generate_access_token parse_token revoke_token
  parse_token-revoke_token secret made user ttl now t s h = elim (Bool-cases (ltb t (made + ttl))) [
    | inl early ↦
        rw
          (
            j.verified secret (record { user_id = user; expires_at = made + ttl }) t,
            early,
            r.kept (blacklist_key (generate_access_token secret made user ttl)) ttl now t s
                (ground arith),
          )
          refl
    | inr late ↦
        rw (j.verified secret (record { user_id = user; expires_at = made + ttl }) t, late) refl
  ]
