-- ===== src/Lifecycle.antt =====
-- The life of a device in the abstract: the database holds it or not, and it has an owner or none.
-- What the requests of one user may do to it is a step relation.
pub mod Statements
pub mod Quiet
pub mod Runs
pub mod Serve
pub mod Tables
use taffy_assistant.Base.{
  ℕ, String, Option, none, some, List, [], ◌∷◌, ◌≡◌, refl, ◌≢◌, ◌⊎◌, inl, inr, select_one,
}
use taffy_assistant.Model.{Device}
use taffy_assistant.Store.{Collation, Db}
use taffy_assistant.Repo.Devices.{has_id}

pub data Phase : Type 0 where
  absent : Phase
  free : Phase
  owned : ℕ → Phase

abbrev pub phase_of : Option Device → Phase
phase_of none = absent
phase_of (some d) = elim d.owner_id [ none ↦ free | some u ↦ owned u ]

module _ ⦃c : Collation⦄ where
  abbrev pub phase : String → Db → Phase
  phase id db = phase_of (select_one (has_id id) db.devices)

-- What a user may do: bind a device that is free, unbind a device of theirs, and leave it behind when
-- their account goes.
pub data Step (user : ℕ) : Phase → Phase → Type 0 where
  bind : Step user free (owned user)
  unbind : Step user (owned user) absent
  leave : Step user (owned user) free

pub data Course (user : ℕ) : Phase → Phase → Type 0 where
  stop : {p : Phase} → Course user p p
  go : {p q s : Phase} → Step user p q → Course user q s → Course user p s

owner_of : {u v : ℕ} → owned u ≡ owned v → u ≡ v
owner_of e = cc

apart : {v : ℕ} → ¬ (free ≡ owned v)
apart e = cc

module _ {user : ℕ} where
  pub join : {p q s : Phase} → Course user p q → Course user q s → Course user p s
  join stop k = k
  join (go x h) k = go x (join h k)

  -- A device of somebody else stays theirs.
  pub Course-other :
      {p q : Phase} (other : ℕ) → Course user p q → p ≡ owned other → user ≢ other → q ≡ owned other
  Course-other other stop e n = e
  Course-other other (go bind h) e n = elim (apart e) [ ]
  Course-other other (go unbind h) e n = elim (n (owner_of e)) [ ]
  Course-other other (go leave h) e n = elim (n (owner_of e)) [ ]
