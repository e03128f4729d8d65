-- ===== src/Hub/Race.antt =====
-- What a broadcast does when a `Close` comes in between: the targets are copied under the lock, but
-- the sends are made after it is released.
use taffy_assistant.Base.{
  ℕ, Bool, true, false, ◌&&◌, not, some, List, [], ◌∷◌, ◌≡◌, refl, arith, eqb, eqb_iff,
  if◌then◌else◌, update_rows, select, select_one, select_one-update, select_one_holds, map, inl,
  inr, Option-cases, Bool-cases,
}
use taffy_assistant.Hub.{
  Client, Hub, is_client, is_target, targets, offered, send_one, send_all, close, unlist,
  close_channel,
}

-- Is the number among those?
abbrev pub among : ℕ → List ℕ → Bool
among n [] = false
among n (m ∷ ms) = if eqb m n then true else among n ms

module _ {ℓ} {E : Type ℓ} where
  send_one-panicked :
      (e : E) (n : ℕ) (h : Hub E) → h.panicked ≡ true → (send_one e n h).panicked ≡ true
  unfolding send_one
  send_one-panicked e n h p = elim (Option-cases (select_one (is_client n) h.clients)) [
    | inl missing ↦ rw missing p
    | inr (x, found) ↦ rw found (ground arith)
  ]

  send_all-panicked :
      (e : E) (ns : List ℕ) (h : Hub E) → h.panicked ≡ true → (send_all e ns h).panicked ≡ true
  unfolding send_all
  send_all-panicked e [] h p = p
  send_all-panicked e (n ∷ ns) h p =
      send_all-panicked e ns (send_one e n h) (send_one-panicked e n h p)

  -- The client is still there, and still closed, after a send to any client.
  send_one-keeps_closed :
      (e : E) (n m : ℕ) (h : Hub E) (x : Client E)
      → select_one (is_client n) h.clients ≡ some x
      → x.closed ≡ true
      → (y : Client E) × (select_one (is_client n) (send_one e m h).clients ≡ some y)
        × (y.closed ≡ true)
  unfolding send_one
  send_one-keeps_closed e n m h x found shut =
      elim (Option-cases (select_one (is_client m) h.clients)) [
        | inl missing ↦ rw missing (x, found, shut)
        | inr (z, other) ↦ elim (Bool-cases z.closed) [
          | inl c ↦ rw (other, c) (x, found, shut)
          | inr c ↦
              rw
                (
                  other,
                  c,
                  select_one-update (is_client n) (is_client m) (offered e) h.clients
                      (λ w. ground arith),
                  found,
                )
                (_, refl, ground arith)
        ]
      ]

  send_one-shut :
      (e : E) (n : ℕ) (h : Hub E) (x : Client E)
      → select_one (is_client n) h.clients ≡ some x
      → x.closed ≡ true
      → (send_one e n h).panicked ≡ true
  unfolding send_one
  send_one-shut e n h x found shut = rw (found, shut) refl

  send_all-shut :
      (e : E) (n : ℕ) (ns : List ℕ) (h : Hub E) (x : Client E)
      → among n ns ≡ true
      → select_one (is_client n) h.clients ≡ some x
      → x.closed ≡ true
      → (send_all e ns h).panicked ≡ true
  unfolding send_all
  send_all-shut e n [] h x m found shut = ground arith
  send_all-shut e n (k ∷ ns) h x m found shut = elim (Bool-cases (eqb k n)) [
    | inl same ↦
        send_all-panicked e ns (send_one e k h)
          (send_one-shut e k h x (ground (arith, eqb_iff k n)) shut)
    | inr other ↦
        let (y, still, closed) = send_one-keeps_closed e n k h x found shut in
        send_all-shut e n ns (send_one e k h) y (ground arith) still closed
  ]

  targets-among :
      (user n : ℕ) (xs : List (Client E)) (x : Client E)
      → select_one (is_client n) xs ≡ some x
      → is_target user x ≡ true
      → among n (map (λ (y : Client E). y.number) (select (is_target user) xs)) ≡ true
  unfolding select_one select
  targets-among user n [] x found t = cc
  targets-among user n (y ∷ ys) x found t = ground (arith, targets-among user n ys x)

  close-shuts :
      (n : ℕ) (h : Hub E) (x : Client E)
      → select_one (is_client n) h.clients ≡ some x
      → (y : Client E) × (select_one (is_client n) (close n h).clients ≡ some y) × (y.closed ≡ true)
  unfolding close unlist close_channel
  close-shuts n h x found =
      rw
        (
          select_one-update (is_client n) (λ y. is_client n y && not y.listed)
              (λ y. record y { closed = true })
              (update_rows (is_client n) (λ y. record y { listed = false }) h.clients) (λ y. refl),
          select_one-update (is_client n) (is_client n) (λ y. record y { listed = false }) h.clients
              (λ y. refl),
          found,
        )
        (_, refl, ground (arith, select_one_holds (is_client n) h.clients x found))

  -- If a client is closed after a broadcast to its user has copied the targets, of which it is one,
  -- and before the broadcast sends, then the broadcast panics, with whatever event.
  pub broadcast-close-panics :
      (user n : ℕ) (e : E) (h : Hub E) (x : Client E)
      → select_one (is_client n) h.clients ≡ some x
      → is_target user x ≡ true
      → (send_all e (targets user h) (close n h)).panicked ≡ true
  unfolding targets
  broadcast-close-panics user n e h x found t =
      let (y, still, shut) = close-shuts n h x found in
      send_all-shut e n (targets user h) (close n h) y (targets-among user n h.clients x found t)
        still shut
