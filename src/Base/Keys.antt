-- ===== src/Base/Keys.antt =====
-- Lists of rows whose keys differ, and what holds of all rows.
use mathlib.Core.Path.{◌≡◌, refl}
use mathlib.Core.Bool.{Bool, true, false}
use mathlib.Core.List.{List, [], ◌∷◌, ◌++◌}
use native.Mathlib.Omega.{arith}
use taffy_assistant.Base.Tests.{if◌then◌else◌}
use taffy_assistant.Base.Rows.{All, update_rows, delete_rows, exists_row}

module _ {ℓ} {A : Type ℓ} where
  -- `repeats x y` says that the later row y has the key of the row x.
  abbrev pub Distinct : (A → A → Bool) → List A → Type 0
  Distinct repeats [] = Unit
  Distinct repeats (x ∷ xs) = (exists_row (repeats x) xs ≡ false) × Distinct repeats xs

  exists-none :
      (q r : A → Bool) (xs : List A)
      → ((x : A) → q x ≡ true → r x ≡ true)
      → exists_row r xs ≡ false
      → exists_row q xs ≡ false
  unfolding exists_row
  exists-none q r [] h e = refl
  exists-none q r (x ∷ xs) h e = ground (arith, h x, exists-none q r xs h)

  pub exists-append :
      (q : A → Bool) (xs ys : List A) → exists_row q xs ≡ true → exists_row q (xs ++ ys) ≡ true
  unfolding exists_row
  exists-append q [] ys h = cc
  exists-append q (x ∷ xs) ys h = ground (arith, exists-append q xs ys)

  pub exists-update :
      (q p : A → Bool) (f : A → A) (xs : List A)
      → ((x : A) → q (f x) ≡ q x)
      → exists_row q (update_rows p f xs) ≡ exists_row q xs
  unfolding exists_row update_rows
  exists-update q p f [] h = refl
  exists-update q p f (x ∷ xs) h = ground (arith, h x, exists-update q p f xs h)

  pub exists-delete :
      (q p : A → Bool) (xs : List A)
      → ((x : A) → q x ≡ true → p x ≡ false)
      → exists_row q xs ≡ true
      → exists_row q (delete_rows p xs) ≡ true
  unfolding exists_row delete_rows
  exists-delete q p [] h e = cc
  exists-delete q p (x ∷ xs) h e = ground (arith, h x, exists-delete q p xs h)

  absent-delete :
      (q p : A → Bool) (xs : List A)
      → exists_row q xs ≡ false
      → exists_row q (delete_rows p xs) ≡ false
  unfolding exists_row delete_rows
  absent-delete q p [] e = refl
  absent-delete q p (x ∷ xs) e = ground (arith, absent-delete q p xs)

  absent-append :
      (q : A → Bool) (xs : List A) (y : A)
      → exists_row q xs ≡ false
      → q y ≡ false
      → exists_row q (xs ++ y ∷ []) ≡ false
  unfolding exists_row
  absent-append q [] y e h = ground arith
  absent-append q (x ∷ xs) y e h = ground (arith, absent-append q xs y)

  pub Distinct-append :
      (repeats : A → A → Bool) (xs : List A) (y : A)
      → ((x : A) → repeats x y ≡ repeats y x)
      → exists_row (repeats y) xs ≡ false
      → Distinct repeats xs
      → Distinct repeats (xs ++ y ∷ [])
  unfolding exists_row
  Distinct-append repeats [] y sym e d = (refl, tt)
  Distinct-append repeats (x ∷ xs) y sym e d = (
    absent-append (repeats x) xs y d.0 (ground (arith, sym x)),
    Distinct-append repeats xs y sym (ground arith) d.1,
  )

  pub Distinct-delete :
      (repeats : A → A → Bool) (p : A → Bool) (xs : List A)
      → Distinct repeats xs
      → Distinct repeats (delete_rows p xs)
  unfolding delete_rows
  Distinct-delete repeats p [] d = tt
  Distinct-delete repeats p (x ∷ xs) d =
      pushed (delete_rows p xs) (p x) (absent-delete (repeats x) p xs d.0)
        (Distinct-delete repeats p xs d.1)
    where
      pushed :
          (ys : List A) (b : Bool)
          → exists_row (repeats x) ys ≡ false
          → Distinct repeats ys
          → Distinct repeats (if b then ys else x ∷ ys)
      pushed ys true e k = k
      pushed ys false e k = (e, k)

  pub Distinct-update :
      (repeats : A → A → Bool) (p : A → Bool) (f : A → A) (xs : List A)
      → ((x y : A) → repeats (f x) y ≡ repeats x y)
      → ((x y : A) → repeats x (f y) ≡ repeats x y)
      → Distinct repeats xs
      → Distinct repeats (update_rows p f xs)
  unfolding update_rows
  Distinct-update repeats p f [] l r d = tt
  Distinct-update repeats p f (x ∷ xs) l r d = (first (p x), Distinct-update repeats p f xs l r d.1)
    where
      first : (b : Bool) → exists_row (repeats (if b then f x else x)) (update_rows p f xs) ≡ false
      first true =
          rw (exists-update (repeats (f x)) p f xs (r (f x)))
            (exists-none (repeats (f x)) (repeats x) xs (λ y h. ground (arith, l x y)) d.0)
      first false = rw (exists-update (repeats x) p f xs (r x)) d.0

module _ {ℓ κ} {A : Type ℓ} {P Q : A → Type κ} where
  pub All-map : (xs : List A) → ((x : A) → P x → Q x) → All P xs → All Q xs
  All-map [] h a = tt
  All-map (x ∷ xs) h a = (h x a.0, All-map xs h a.1)

  pub All-update :
      (p : A → Bool) (f : A → A) (xs : List A)
      → ((x : A) → p x ≡ true → P x → Q (f x))
      → ((x : A) → p x ≡ false → P x → Q x)
      → All P xs
      → All Q (update_rows p f xs)
  unfolding update_rows
  All-update p f [] h k a = tt
  All-update p f (x ∷ xs) h k a = (first (p x) refl, All-update p f xs h k a.1)
    where
      first : (b : Bool) → p x ≡ b → Q (if b then f x else x)
      first true e = h x e a.0
      first false e = k x e a.0

  pub All-delete :
      (p : A → Bool) (xs : List A)
      → ((x : A) → p x ≡ false → P x → Q x)
      → All P xs
      → All Q (delete_rows p xs)
  unfolding delete_rows
  All-delete p [] h a = tt
  All-delete p (x ∷ xs) h a = pushed (delete_rows p xs) (p x) refl (All-delete p xs h a.1)
    where
      pushed : (ys : List A) (b : Bool) → p x ≡ b → All Q ys → All Q (if b then ys else x ∷ ys)
      pushed ys true e k = k
      pushed ys false e k = (h x e a.0, k)

module _ {ℓ κ} {A : Type ℓ} (P : A → Type κ) where
  pub All-append : (xs : List A) (y : A) → All P xs → P y → All P (xs ++ y ∷ [])
  All-append [] y a h = (h, tt)
  All-append (x ∷ xs) y a h = (a.0, All-append xs y a.1 h)
