-- ===== src/Repo/Devices/Writes.antt =====
-- What the statements of `BindToOwner` and `Rename` write.
use taffy_assistant.Base.{
  ℕ, String, some, true, ◌≡◌, refl, ◌⊎◌, inl, inr, eqb, Bool-cases, count_rows, update_rows,
}
use taffy_assistant.Errors.{Error}
use taffy_assistant.Store.{Collation, Db, Result, ok, err}
use taffy_assistant.Repo.Devices.{
  is_claimable, claimed, is_renamable, owner_exists, bind_rows, bind_found, rename_rows,
  rename_found, name_columns,
}

-- Texts that are refused, or the two that are held.
pub Columns-cases :
    (x : Result (String × String))
    → ((e : Error) × (x ≡ err e)) ⊎ ((n : String) × (r : String) × (x ≡ ok (n, r)))
Columns-cases (err e) = inl (e, refl)
Columns-cases (ok (n, r)) = inr (n, r, refl)

module _ ⦃c : Collation⦄ where
  -- The tables with the rows bound, or renamed.
  abbrev pub with_bound : String → String → ℕ → String → String → Db → Db
  with_bound id code user n r d = record d {
    devices = update_rows (is_claimable id code) (claimed user n r) d.devices;
  }

  abbrev pub with_renamed : String → ℕ → String → String → Db → Db
  with_renamed id user n r d = record d {
    devices = update_rows (is_renamable id user) (λ x. record x { name = n; room = r }) d.devices;
  }

  bind_found-db :
      (id code : String) (user found : ℕ) (x : Result (String × String)) (d : Db)
      → ((bind_found id code user found x d).1 ≡ d)
        ⊎ ((owner_exists (some user) d ≡ true)
            × (n : String) × (r : String) × ((bind_found id code user found x d).1
                ≡ with_bound id code user n r d))
  bind_found-db id code user found (err e) d = inl refl
  bind_found-db id code user found (ok (n, r)) d = elim (Bool-cases (owner_exists (some user) d)) [
    | inl known ↦ inr (known, n, r, rw known refl)
    | inr unknown ↦ inl (rw unknown refl)
  ]

  pub bind_rows-db :
      (id code : String) (user : ℕ) (name room : String) (d : Db)
      → ((bind_rows id code user name room d).1 ≡ d)
        ⊎ ((owner_exists (some user) d ≡ true)
            × (n : String) × (r : String) × ((bind_rows id code user name room d).1
                ≡ with_bound id code user n r d))
  unfolding bind_rows
  bind_rows-db id code user name room d =
      elim (Bool-cases (eqb (count_rows (is_claimable id code) d.devices) 0)) [
        | inl nothing_found ↦ rw nothing_found (inl refl)
        | inr some_found ↦ rw some_found (bind_found-db id code user _ (name_columns name room) d)
      ]

  rename_found-db :
      (id : String) (user : ℕ) (x : Result (String × String)) (d : Db)
      → ((rename_found id user x d).1 ≡ d)
        ⊎ ((n : String) × (r : String) × ((rename_found id user x d).1
              ≡ with_renamed id user n r d))
  rename_found-db id user (err e) d = inl refl
  rename_found-db id user (ok (n, r)) d = inr (n, r, refl)

  pub rename_rows-db :
      (id : String) (user : ℕ) (name room : String) (d : Db)
      → ((rename_rows id user name room d).1 ≡ d)
        ⊎ ((n : String) × (r : String) × ((rename_rows id user name room d).1
              ≡ with_renamed id user n r d))
  unfolding rename_rows
  rename_rows-db id user name room d =
      elim (Bool-cases (eqb (count_rows (is_renamable id user) d.devices) 0)) [
        | inl nothing_found ↦ rw nothing_found (inl refl)
        | inr some_found ↦ rw some_found (rename_found-db id user (name_columns name room) d)
      ]
