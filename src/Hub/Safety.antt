-- ===== src/Hub/Safety.antt =====
-- A hub under any sequence of operations, with nothing in between the two halves of a `Close` or of a
-- broadcast.
use taffy_assistant.Base.{
  ℕ, suc, ◌≤◌, ◌<◌, Bool, true, false, ◌&&◌, List, [], ◌∷◌, ◌++◌, ◌≡◌, refl, ◌∙◌, arith, eqb,
  length, length-append, if◌then◌else◌, update_rows, exists_row,
}
use taffy_assistant.Hub.{
  Client, Hub, new, register, unlist, close_channel, close, pump, is_client, is_target, offered,
  broadcast_to_user, send_buffer_size, drop_oldest,
}
use taffy_assistant.Hub.Delivery.{Distinct, Open, broadcast_to_user-delivers}

-- What may be asked of a hub.
pub data Op {ℓ} (E : Type ℓ) : Type ℓ where
  registered : ℕ → Op E
  closed : ℕ → Op E
  pumped : ℕ → Op E
  broadcast : ℕ → E → Op E

module _ {ℓ} {E : Type ℓ} where
  abbrev pub perform : Op E → Hub E → Hub E
  perform (registered user) h = register user h
  perform (closed n) h = close n h
  perform (pumped n) h = pump n h
  perform (broadcast user e) h = broadcast_to_user user e h

  abbrev pub perform_all : List (Op E) → Hub E → Hub E
  perform_all [] h = h
  perform_all (o ∷ os) h = perform_all os (perform o h)

  -- A client that was registered with a number below `next`, whose queue is within its bound, and
  -- whose channel is open while it is listed.
  abbrev pub Sound : ℕ → List (Client E) → Type 0
  Sound next [] = Unit {0}
  Sound next (x ∷ xs) = (x.number < next) × (length x.send ≤ send_buffer_size) × Sound next xs

  abbrev pub IsWf : Hub E → Type 0
  IsWf h = Distinct h.clients × Open h.clients × Sound h.next h.clients × (h.panicked ≡ false)

  exists-next :
      (next : ℕ) (xs : List (Client E)) → Sound next xs → exists_row (is_client next) xs ≡ false
  unfolding exists_row
  exists-next next [] s = refl
  exists-next next (x ∷ xs) s = ground (arith, exists-next next xs s.2)

  exists-update :
      (n : ℕ) (p : Client E → Bool) (f : Client E → Client E) (xs : List (Client E))
      → ((x : Client E) → (f x).number ≡ x.number)
      → exists_row (is_client n) (update_rows p f xs) ≡ exists_row (is_client n) xs
  unfolding exists_row update_rows
  exists-update n p f [] k = refl
  exists-update n p f (x ∷ xs) k = ground (arith, k x, exists-update n p f xs k)

  number_kept :
      (b : Bool) (f : Client E → Client E) (x : Client E)
      → (f x).number ≡ x.number
      → (if b then f x else x).number ≡ x.number
  number_kept true f x k = k
  number_kept false f x k = refl

  Distinct-update :
      (p : Client E → Bool) (f : Client E → Client E) (xs : List (Client E))
      → ((x : Client E) → (f x).number ≡ x.number)
      → Distinct xs
      → Distinct (update_rows p f xs)
  unfolding update_rows
  Distinct-update p f [] k d = tt
  Distinct-update p f (x ∷ xs) k d = (
    rw (number_kept (p x) f x (k x)) (exists-update x.number p f xs k ∙ d.0),
    Distinct-update p f xs k d.1,
  )

  Open-update :
      (p : Client E → Bool) (f : Client E → Client E) (xs : List (Client E))
      → ((x : Client E)
          → p x ≡ true
          → (x.listed && x.closed) ≡ false
          → ((f x).listed && (f x).closed) ≡ false)
      → Open xs
      → Open (update_rows p f xs)
  unfolding update_rows
  Open-update p f [] k o = tt
  Open-update p f (x ∷ xs) k o = (ground (arith, k x), Open-update p f xs k o.1)

  Sound-update :
      (next : ℕ) (p : Client E → Bool) (f : Client E → Client E) (xs : List (Client E))
      → ((x : Client E) → (f x).number ≡ x.number)
      → ((x : Client E) → length x.send ≤ send_buffer_size → length (f x).send ≤ send_buffer_size)
      → Sound next xs
      → Sound next (update_rows p f xs)
  unfolding update_rows
  Sound-update next p f [] k b s = tt
  Sound-update next p f (x ∷ xs) k b s =
      (ground (arith, k x), ground (arith, b x), Sound-update next p f xs k b s.2)

  Sound-append :
      (next : ℕ) (xs : List (Client E)) (y : Client E)
      → Sound next xs
      → y.number ≡ next
      → y.send ≡ []
      → Sound (suc next) (xs ++ y ∷ [])
  Sound-append next [] y s n e = (ground arith, ground arith, tt)
  Sound-append next (x ∷ xs) y s n e = (omega arith, s.1, Sound-append next xs y s.2 n e)

  Open-append :
      (xs : List (Client E)) (y : Client E) → Open xs → y.closed ≡ false → Open (xs ++ y ∷ [])
  Open-append [] y o e = (ground arith, tt)
  Open-append (x ∷ xs) y o e = (o.0, Open-append xs y o.1 e)

  exists-append :
      (n : ℕ) (xs : List (Client E)) (y : Client E)
      → exists_row (is_client n) xs ≡ false
      → eqb y.number n ≡ false
      → exists_row (is_client n) (xs ++ y ∷ []) ≡ false
  unfolding exists_row
  exists-append n [] y h k = ground arith
  exists-append n (x ∷ xs) y h k = ground (arith, exists-append n xs y)

  Distinct-append :
      (next : ℕ) (xs : List (Client E)) (y : Client E)
      → Sound next xs
      → Distinct xs
      → y.number ≡ next
      → Distinct (xs ++ y ∷ [])
  unfolding exists_row
  Distinct-append next [] y s d n = (refl, tt)
  Distinct-append next (x ∷ xs) y s d n =
      (exists-append x.number xs y d.0 (ground arith), Distinct-append next xs y s.2 d.1 n)

  bounded_offer :
      (e : E) (x : Client E)
      → length x.send ≤ send_buffer_size
      → length (offered e x).send ≤ send_buffer_size
  bounded_offer e x b = ground (arith, length-append x.send (e ∷ []))

  bounded_drop :
      (es : List E) → length es ≤ send_buffer_size → length (drop_oldest es) ≤ send_buffer_size
  bounded_drop [] b = b
  bounded_drop (e ∷ es) b = omega arith

  register-IsWf : (user : ℕ) (h : Hub E) → IsWf h → IsWf (register user h)
  unfolding register
  register-IsWf user h (d, o, s, n) = (
    Distinct-append h.next h.clients _ s d refl,
    Open-append h.clients _ o refl,
    Sound-append h.next h.clients _ s refl refl,
    n,
  )

  close-IsWf : (n : ℕ) (h : Hub E) → IsWf h → IsWf (close n h)
  unfolding close unlist close_channel
  close-IsWf n h (d, o, s, safe) = (
    Distinct-update _ _ _ (λ x. refl) (Distinct-update _ _ h.clients (λ x. refl) d),
    Open-update _ _ _ (λ x p k. ground arith) (Open-update _ _ h.clients (λ x p k. refl) o),
    Sound-update _ _ _ _ (λ x. refl) (λ x b. b)
        (Sound-update h.next _ _ h.clients (λ x. refl) (λ x b. b) s),
    safe,
  )

  pump-IsWf : (n : ℕ) (h : Hub E) → IsWf h → IsWf (pump n h)
  unfolding pump
  pump-IsWf n h (d, o, s, safe) = (
    Distinct-update _ _ h.clients (λ x. refl) d,
    Open-update _ _ h.clients (λ x p k. k) o,
    Sound-update h.next _ _ h.clients (λ x. refl) (λ x b. bounded_drop x.send b) s,
    safe,
  )

  broadcast-IsWf : (user : ℕ) (e : E) (h : Hub E) → IsWf h → IsWf (broadcast_to_user user e h)
  broadcast-IsWf user e h (d, o, s, safe) = rw (broadcast_to_user-delivers user e h d o) (
    Distinct-update (is_target user) (offered e) h.clients (λ x. ground arith) d,
    Open-update (is_target user) (offered e) h.clients (λ x p k. ground arith) o,
    Sound-update h.next (is_target user) (offered e) h.clients (λ x. ground arith) (bounded_offer e)
        s,
    safe,
  )

  -- Every operation keeps a hub well-formed: clients have numbers of their own, no listed client is
  -- closed, no queue holds more than 32 events, and nothing has panicked.
  pub perform-IsWf : (o : Op E) (h : Hub E) → IsWf h → IsWf (perform o h)
  perform-IsWf (registered user) h w = register-IsWf user h w
  perform-IsWf (closed n) h w = close-IsWf n h w
  perform-IsWf (pumped n) h w = pump-IsWf n h w
  perform-IsWf (broadcast user e) h w = broadcast-IsWf user e h w

  perform_all-IsWf : (os : List (Op E)) (h : Hub E) → IsWf h → IsWf (perform_all os h)
  perform_all-IsWf [] h w = w
  perform_all-IsWf (o ∷ os) h w = perform_all-IsWf os (perform o h) (perform-IsWf o h w)

  -- After any sequence of operations on a new hub, each of them done at once, clients have numbers of
  -- their own, no listed client is closed, no queue holds more than 32 events, and nothing has
  -- panicked.
  pub perform_all-new : (os : List (Op E)) → IsWf (perform_all os (new {E = E}))
  unfolding new
  perform_all-new os = perform_all-IsWf os new (tt, tt, tt, refl)
