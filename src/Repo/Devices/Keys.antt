-- ===== src/Repo/Devices/Keys.antt =====
-- The key of the device table: no two rows have the same `device_id`.
use taffy_assistant.Base.{
  String, Bool, true, false, some, List, [], ◌∷◌, ◌≡◌, refl, arith, select_one, update_rows,
  count_rows, exists_row, ap, ◌∙◌, if◌then◌else◌,
}
use taffy_assistant.Model.{Device}
use taffy_assistant.Store.{Collation}
use taffy_assistant.Repo.Devices.{has_id}

module _ ⦃c : Collation⦄ where
  abbrev pub Unique : List Device → Type 0
  Unique [] = Unit {0}
  Unique (d ∷ ds) = (exists_row (has_id d.device_id) ds ≡ false) × Unique ds

  -- A row with an id that the head has repeats the head's id.
  exists-has_id :
      (id : String) (d : Device) (ds : List Device)
      → has_id id d ≡ true
      → exists_row (has_id d.device_id) ds ≡ false
      → exists_row (has_id id) ds ≡ false
  unfolding exists_row
  exists-has_id id d [] same none_later = refl
  exists-has_id id d (x ∷ ds) same none_later = ground (
    arith,
    exists-has_id id d ds same,
    c.same_sym d.device_id id,
    c.same_trans x.device_id id d.device_id,
  )

  count-has_id :
      (p : Device → Bool) (id : String) (ds : List Device)
      → ((d : Device) → p d ≡ true → has_id id d ≡ true)
      → exists_row (has_id id) ds ≡ false
      → count_rows p ds ≡ 0
  unfolding exists_row count_rows
  count-has_id p id [] narrow e = refl
  count-has_id p id (x ∷ ds) narrow e = ground (arith, narrow x, count-has_id p id ds narrow)

  -- A condition that asks for an id looks at one row only.
  pub count_one :
      (p : Device → Bool) (id : String) (ds : List Device) (o : Device)
      → Unique ds
      → ((d : Device) → p d ≡ true → has_id id d ≡ true)
      → select_one (has_id id) ds ≡ some o
      → count_rows p ds ≡ (elim (p o) [ true ↦ 1 | false ↦ 0 ])
  unfolding select_one count_rows
  count_one p id [] o u narrow h = cc
  count_one p id (x ∷ ds) o u narrow h = ground (
    arith,
    narrow x,
    exists-has_id id x ds,
    count-has_id p id ds narrow,
    count_one p id ds o u.1 narrow,
  )

  exists-update :
      (q p : Device → Bool) (f : Device → Device) (ds : List Device)
      → ((d : Device) → q (f d) ≡ q d)
      → exists_row q (update_rows p f ds) ≡ exists_row q ds
  unfolding exists_row update_rows
  exists-update q p f [] h = refl
  exists-update q p f (x ∷ ds) h = ground (arith, h x, exists-update q p f ds h)

  -- An update that keeps the ids keeps them unique.
  pub Unique-update :
      (p : Device → Bool) (f : Device → Device) (ds : List Device)
      → ((d : Device) → (f d).device_id ≡ d.device_id)
      → Unique ds
      → Unique (update_rows p f ds)
  unfolding update_rows
  Unique-update p f [] h u = tt
  Unique-update p f (x ∷ ds) h u = (
    rw (kept_id (p x) x (h x)) (
        exists-update (has_id x.device_id) p f ds (λ d. ap (λ i. c.same i x.device_id) (h d))
        ∙ u.0),
    Unique-update p f ds h u.1,
  )
    where
      kept_id :
          (b : Bool) (d : Device)
          → (f d).device_id ≡ d.device_id
          → (if b then f d else d).device_id ≡ d.device_id
      kept_id b d e = ground arith
