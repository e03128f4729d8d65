-- ===== src/Base/Rows.antt =====
-- Lists of rows: the clauses WHERE, UPDATE and DELETE over Boolean conditions, and their laws.
use Prim.Native.Nat.{ℕ, suc, ◌+◌}
use mathlib.Core.Path.{◌≡◌, refl, ap}
use mathlib.Core.Bool.{Bool, true, false, ◌||◌}
use mathlib.Core.Option.{Option, none, some}
use mathlib.Core.List.{List, [], ◌∷◌, ◌++◌}
use native.Mathlib.Omega.{arith}
use taffy_assistant.Base.Tests.{if◌then◌else◌}

module _ {ℓ} {A : Type ℓ} where
  abbrev pub length : List A → ℕ
  length [] = 0
  length (x ∷ xs) = suc (length xs)

  pub length-append : (xs ys : List A) → length (xs ++ ys) ≡ length xs + length ys
  length-append [] ys = omega arith
  length-append (x ∷ xs) ys = omega (arith, length-append xs ys)

  pub nil_right : (xs : List A) → xs ≡ xs ++ []
  nil_right [] = refl
  nil_right (x ∷ xs) = ap (λ ys. x ∷ ys) (nil_right xs)

  -- The rows that a condition holds of, in table order.
  unfoldable pub select : (A → Bool) → List A → List A
  select p [] = []
  select p (x ∷ xs) = if p x then x ∷ select p xs else select p xs

  -- The first such row.
  unfoldable pub select_one : (A → Bool) → List A → Option A
  select_one p [] = none
  select_one p (x ∷ xs) = if p x then some x else select_one p xs

  -- `UPDATE … SET f WHERE p`.
  unfoldable pub update_rows : (A → Bool) → (A → A) → List A → List A
  update_rows p f [] = []
  update_rows p f (x ∷ xs) = (if p x then f x else x) ∷ update_rows p f xs

  -- `DELETE … WHERE p`.
  unfoldable pub delete_rows : (A → Bool) → List A → List A
  delete_rows p [] = []
  delete_rows p (x ∷ xs) = if p x then delete_rows p xs else x ∷ delete_rows p xs

  -- Is there a row that the condition holds of?
  unfoldable pub exists_row : (A → Bool) → List A → Bool
  exists_row p [] = false
  exists_row p (x ∷ xs) = p x || exists_row p xs

  -- How many rows the condition holds of.
  unfoldable pub count_rows : (A → Bool) → List A → ℕ
  count_rows p [] = 0
  count_rows p (x ∷ xs) = (if p x then 1 else 0) + count_rows p xs

  abbrev pub All {κ} : (A → Type κ) → List A → Type κ
  All P [] = Unit
  All P (x ∷ xs) = P x × All P xs

module _ {ℓ} {A : Type ℓ} where
  pub select-All : (p : A → Bool) (xs : List A) → All (λ x. p x ≡ true) (select p xs)
  unfolding select
  select-All p [] = tt
  select-All p (x ∷ xs) = ground (arith, select-All p xs)

  pub select_one_holds :
      (p : A → Bool) (xs : List A) (x : A) → select_one p xs ≡ some x → p x ≡ true
  unfolding select_one
  select_one_holds p [] x h = cc
  select_one_holds p (y ∷ ys) x h = ground (arith, select_one_holds p ys x)

  -- An update that keeps every row outside a condition keeps what another condition selects there.
  pub select_one-update :
      (q p : A → Bool) (f : A → A) (xs : List A)
      → ((x : A) → q (f x) ≡ q x)
      → select_one q (update_rows p f xs)
        ≡ (elim (select_one q xs) [ none ↦ none | some x ↦ some (if p x then f x else x) ])
  unfolding select_one update_rows
  select_one-update q p f [] h = refl
  select_one-update q p f (x ∷ xs) h = ground (arith, h x, select_one-update q p f xs h)

  pub select_one-delete_same : (p : A → Bool) (xs : List A) → select_one p (delete_rows p xs) ≡ none
  unfolding select_one delete_rows
  select_one-delete_same p [] = refl
  select_one-delete_same p (x ∷ xs) = ground (arith, select_one-delete_same p xs)

  -- Deleting rows that a condition is false of does not change what it selects.
  pub select_one-delete :
      (q p : A → Bool) (xs : List A)
      → ((x : A) → q x ≡ true → p x ≡ false)
      → select_one q (delete_rows p xs) ≡ select_one q xs
  unfolding select_one delete_rows
  select_one-delete q p [] h = refl
  select_one-delete q p (x ∷ xs) h = ground (arith, h x, select_one-delete q p xs h)

  pub length-update :
      (p : A → Bool) (f : A → A) (xs : List A) → length (update_rows p f xs) ≡ length xs
  unfolding update_rows
  length-update p f [] = refl
  length-update p f (x ∷ xs) = ap suc (length-update p f xs)
