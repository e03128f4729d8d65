-- ===== src/Hub/Delivery.antt =====
-- What a broadcast does when nothing comes in between.
use taffy_assistant.Base.{
  ℕ, Bool, false, ◌&&◌, none, some, List, [], ◌∷◌, ◌≡◌, refl, ap, ◌∙◌, arith, eqb, eqb_refl,
  update_rows, select, select_one, exists_row, map, inl, inr, Option-cases, Bool-cases,
}
use taffy_assistant.Hub.{
  Client, Hub, is_client, is_target, targets, offered, send_one, send_all, broadcast_to_user,
}

module _ {ℓ} {E : Type ℓ} where
  -- Nobody else has the number.
  abbrev pub Distinct : List (Client E) → Type 0
  Distinct [] = Unit {0}
  Distinct (x ∷ xs) = (exists_row (is_client x.number) xs ≡ false) × Distinct xs

  -- No client that the hub lists is closed.
  abbrev pub Open : List (Client E) → Type 0
  Open [] = Unit {0}
  Open (x ∷ xs) = ((x.listed && x.closed) ≡ false) × Open xs

  abbrev pub is_closed : ℕ → Client E → Bool
  is_closed n x = is_client n x && x.closed

  update-none :
      (p : Client E → Bool) (f : Client E → Client E) (xs : List (Client E))
      → exists_row p xs ≡ false
      → update_rows p f xs ≡ xs
  unfolding update_rows exists_row
  update-none p f [] h = refl
  update-none p f (x ∷ xs) h = ground (arith, update-none p f xs)

  select-none :
      (p : Client E → Bool) (xs : List (Client E))
      → select_one p xs ≡ none
      → exists_row p xs ≡ false
  unfolding select_one exists_row
  select-none p [] h = refl
  select-none p (x ∷ xs) h = ground (arith, select-none p xs)

  found_open :
      (n : ℕ) (xs : List (Client E)) (x : Client E)
      → exists_row (is_closed n) xs ≡ false
      → select_one (is_client n) xs ≡ some x
      → x.closed ≡ false
  unfolding select_one exists_row
  found_open n [] x h found = cc
  found_open n (y ∷ ys) x h found = ground (arith, found_open n ys x)

  send_one-open :
      (e : E) (n : ℕ) (h : Hub E)
      → exists_row (is_closed n) h.clients ≡ false
      → send_one e n h ≡ record h { clients = update_rows (is_client n) (offered e) h.clients }
  unfolding send_one
  send_one-open e n h op = elim (Option-cases (select_one (is_client n) h.clients)) [
    | inl missing ↦
        rw
          (
            missing,
            update-none (is_client n) (offered e) h.clients
                (select-none (is_client n) h.clients missing),
          )
          refl
    | inr (x, found) ↦ rw (found, found_open n h.clients x op found) refl
  ]

  -- The sends of the loop, on the clients alone.
  offer_all : E → List ℕ → List (Client E) → List (Client E)
  offer_all e [] xs = xs
  offer_all e (n ∷ ns) xs = offer_all e ns (update_rows (is_client n) (offered e) xs)

  AllOpen : List ℕ → List (Client E) → Type 0
  AllOpen [] xs = Unit {0}
  AllOpen (n ∷ ns) xs = (exists_row (is_closed n) xs ≡ false) × AllOpen ns xs

  closed-offered :
      (e : E) (n m : ℕ) (xs : List (Client E))
      → exists_row (is_closed n) (update_rows (is_client m) (offered e) xs)
        ≡ exists_row (is_closed n) xs
  unfolding update_rows exists_row
  closed-offered e n m [] = refl
  closed-offered e n m (x ∷ xs) = ground (arith, closed-offered e n m xs)

  AllOpen-offered :
      (e : E) (m : ℕ) (ns : List ℕ) (xs : List (Client E))
      → AllOpen ns xs
      → AllOpen ns (update_rows (is_client m) (offered e) xs)
  unfolding AllOpen
  AllOpen-offered e m [] xs h = tt
  AllOpen-offered e m (n ∷ ns) xs h = (closed-offered e n m xs ∙ h.0, AllOpen-offered e m ns xs h.1)

  send_all-open :
      (e : E) (ns : List ℕ) (h : Hub E)
      → AllOpen ns h.clients
      → send_all e ns h ≡ record h { clients = offer_all e ns h.clients }
  unfolding send_all AllOpen offer_all
  send_all-open e [] h op = refl
  send_all-open e (n ∷ ns) h op = rw (send_one-open e n h op.0) (
      send_all-open e ns (record h { clients = update_rows (is_client n) (offered e) h.clients })
        (AllOpen-offered e n ns h.clients op.1))

  -- No number of the list is the client's.
  Apart : Client E → List ℕ → Type 0
  Apart x [] = Unit {0}
  Apart x (n ∷ ns) = (eqb x.number n ≡ false) × Apart x ns

  offer_all-Apart :
      (e : E) (ns : List ℕ) (x : Client E) (xs : List (Client E))
      → Apart x ns
      → offer_all e ns (x ∷ xs) ≡ x ∷ offer_all e ns xs
  unfolding offer_all Apart update_rows
  offer_all-Apart e [] x xs h = refl
  offer_all-Apart e (n ∷ ns) x xs h =
      rw h.0 (offer_all-Apart e ns x (update_rows (is_client n) (offered e) xs) h.1)

  targets_in : ℕ → List (Client E) → List ℕ
  targets_in user xs = map (λ (x : Client E). x.number) (select (is_target user) xs)

  targets-Apart :
      (user : ℕ) (x : Client E) (xs : List (Client E))
      → exists_row (is_client x.number) xs ≡ false
      → Apart x (targets_in user xs)
  unfolding targets_in Apart select exists_row
  targets-Apart user x [] h = tt
  targets-Apart user x (y ∷ ys) h = elim (Bool-cases (is_target user y)) [
    | inl t ↦ rw t (ground arith, targets-Apart user x ys (ground arith))
    | inr t ↦ rw t (targets-Apart user x ys (ground arith))
  ]

  update-head :
      (e : E) (x : Client E) (xs : List (Client E))
      → exists_row (is_client x.number) xs ≡ false
      → update_rows (is_client x.number) (offered e) (x ∷ xs) ≡ offered e x ∷ xs
  unfolding update_rows
  update-head e x xs h =
      rw (update-none (is_client x.number) (offered e) xs h, eqb_refl x.number) refl

  offer_all-targets :
      (e : E) (user : ℕ) (xs : List (Client E))
      → Distinct xs
      → offer_all e (targets_in user xs) xs ≡ update_rows (is_target user) (offered e) xs
  unfolding targets_in offer_all select update_rows
  offer_all-targets e user [] d = refl
  offer_all-targets e user (x ∷ xs) d = elim (Bool-cases (is_target user x)) [
    | inl t ↦ rw t (
        ap (offer_all e (targets_in user xs)) (update-head e x xs d.0)
        ∙ offer_all-Apart e (targets_in user xs) (offered e x) xs (Apart-offered e user x xs d.0)
        ∙ ap (λ ys. offered e x ∷ ys) (offer_all-targets e user xs d.1))
    | inr t ↦ rw t (
        offer_all-Apart e (targets_in user xs) x xs (targets-Apart user x xs d.0)
        ∙ ap (λ ys. x ∷ ys) (offer_all-targets e user xs d.1))
  ]
    where
      number-offered : (e : E) (x : Client E) → (offered e x).number ≡ x.number
      number-offered e x = ground arith

      Apart-offered :
          (e : E) (user : ℕ) (x : Client E) (xs : List (Client E))
          → exists_row (is_client x.number) xs ≡ false
          → Apart (offered e x) (targets_in user xs)
      Apart-offered e user x xs h = targets-Apart user (offered e x) xs (rw (number-offered e x) h)

  exists-closed :
      (n : ℕ) (xs : List (Client E))
      → exists_row (is_client n) xs ≡ false
      → exists_row (is_closed n) xs ≡ false
  unfolding exists_row
  exists-closed n [] h = refl
  exists-closed n (x ∷ xs) h = ground (arith, exists-closed n xs)

  AllOpen-cons :
      (ns : List ℕ) (x : Client E) (xs : List (Client E))
      → Apart x ns
      → AllOpen ns xs
      → AllOpen ns (x ∷ xs)
  unfolding AllOpen Apart exists_row
  AllOpen-cons [] x xs a h = tt
  AllOpen-cons (n ∷ ns) x xs a h = (ground arith, AllOpen-cons ns x xs a.1 h.1)

  targets-Open :
      (user : ℕ) (xs : List (Client E)) → Distinct xs → Open xs → AllOpen (targets_in user xs) xs
  unfolding targets_in AllOpen select exists_row
  targets-Open user [] d o = tt
  targets-Open user (x ∷ xs) d o = elim (Bool-cases (is_target user x)) [
    | inl t ↦ rw t (
      ground (arith, exists-closed x.number xs d.0),
      AllOpen-cons (targets_in user xs) x xs (targets-Apart user x xs d.0)
          (targets-Open user xs d.1 o.1),
    )
    | inr t ↦ rw t (
        AllOpen-cons (targets_in user xs) x xs (targets-Apart user x xs d.0)
          (targets-Open user xs d.1 o.1))
  ]

  pub broadcast_to_user-delivers :
      (user : ℕ) (e : E) (h : Hub E)
      → Distinct h.clients
      → Open h.clients
      → broadcast_to_user user e h
        ≡ record h { clients = update_rows (is_target user) (offered e) h.clients }
  unfolding broadcast_to_user targets_in
  broadcast_to_user-delivers user e h d o =
      send_all-open e (targets user h) h (targets-Open user h.clients d o)
      ∙ ap (λ xs. record h { clients = xs }) (offer_all-targets e user h.clients d)
