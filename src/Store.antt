-- ===== src/Store.antt =====
-- The state that the services act on: the MySQL tables of server/migrations, the clock, the outages
-- to come and the MQTT commands that were sent. A statement of the database may fail at any time:
-- `faults` says, statement by statement, which ones do and with what text; past its end none fails.
pub mod Moves
use taffy_assistant.Base.{
  ℕ, String, Bool, true, false, Option, none, some, List, [], ◌∷◌, ◌≡◌, refl, ◌⊎◌, inl, inr, ◌≤◌,
  ◌==◌, char_count, exists_row,
}
use taffy_assistant.Json.{Json}
use taffy_assistant.Errors.{Error, driver}
use taffy_assistant.Model.{User, Device, DeviceState, Conversation, Message, Command, Scene}

-- What the database makes of texts: their comparison by the column's collation, which ignores case or
-- trailing spaces and is an equivalence; and what a column holds of a text that it is given, `none`
-- where it refuses the text. A column VARCHAR(n) holds a text of at most n characters as it is; an
-- ENUM holds each of its own labels as it is.
pub record Collation : Type 0 where
  pub same : String → String → Bool
  pub same_refl : (s : String) → same s s ≡ true
  pub same_sym : (s t : String) → same s t ≡ true → same t s ≡ true
  pub same_trans : (s t u : String) → same s t ≡ true → same t u ≡ true → same s u ≡ true
  pub varchar : ℕ → String → Option String
  pub varchar_short : (n : ℕ) (s : String) → char_count s ≤ n → varchar n s ≡ some s
  pub enum : List String → String → Option String
  pub enum_label :
      (ls : List String) (s : String) → exists_row (λ x. x == s) ls ≡ true → enum ls s ≡ some s

-- A command to a device over MQTT (`MQTTCommandPayload`), with the entries of its `params`.
pub record CommandPayload : Type 0 where
  pub tool_id : String
  pub action : String
  pub params : List (String × Json)

pub record Db : Type 0 where
  pub users : List User
  pub devices : List Device
  pub states : List DeviceState
  pub conversations : List Conversation
  pub messages : List Message
  pub commands : List Command
  pub scenes : List Scene
  pub next_user : ℕ
  pub next_conversation : ℕ
  pub next_message : ℕ
  pub next_command : ℕ
  pub next_scene : ℕ

pub record World : Type 0 where
  pub db : Db
  pub open db use *
  pub now : ℕ
  pub faults : List (Option String)
  pub published : List (String × CommandPayload)

pub data Result {ℓ} (A : Type ℓ) : Type ℓ where
  ok : A → Result A
  err : Error → Result A

abbrev pub is_ok {ℓ} : {A : Type ℓ} → Result A → Bool
is_ok (ok _) = true
is_ok (err _) = false

-- Either outcome of a run, with the world it leaves.
pub Result-cases {ℓ κ} :
    {A : Type ℓ} {W : Type κ} (r : Result A × W)
    → ((e : Error) × (w : W) × (r ≡ (err e, w))) ⊎ ((a : A) × (w : W) × (r ≡ (ok a, w)))
Result-cases (err e, w) = inl (e, w, refl)
Result-cases (ok a, w) = inr (a, w, refl)

-- What was written before an error stays written.
abbrev pub M : Type 0 → Type 0
M A = World → Result A × World

module _ {A : Type 0} where
  abbrev pub pure : A → M A
  pure a w = (ok a, w)

  abbrev pub fail : Error → M A
  fail e w = (err e, w)

module _ {A B : Type 0} where
  abbrev continue : Result A × World → (A → M B) → Result B × World
  continue (ok a, w) f = f a w
  continue (err e, w) f = (err e, w)

  infixl 10 ◌>>=◌ ◌>>◌
  abbrev pub ◌>>=◌ : M A → (A → M B) → M B
  ◌>>=◌ m f w = continue (m w) f

  abbrev pub ◌>>◌ : M A → M B → M B
  m >> n = m >>= λ _. n

-- `if err != nil {return handler(err) }` in place of returning the error as it is.
module _ {A : Type 0} where
  abbrev recover : Result A × World → (Error → M A) → Result A × World
  recover (ok a, w) handler = (ok a, w)
  recover (err e, w) handler = handler e w

  abbrev pub catch : M A → (Error → M A) → M A
  catch m handler w = recover (m w) handler

  abbrev pub wrapping : (Error → Error) → M A → M A
  wrapping f m = catch m (λ e. fail (f e))

  -- `r, err := m` where both outcomes are looked at.
  abbrev outcome : Result A × World → Result (Result A) × World
  outcome (r, w) = (ok r, w)

  abbrev pub try : M A → M (Result A)
  try m w = outcome (m w)

-- What the next statement meets, and the outages after it.
abbrev pub strike : List (Option String) → Option String × List (Option String)
strike [] = (none, [])
strike (f ∷ rest) = (f, rest)

module _ {A : Type 0} where
  abbrev pub attempt : Option String → (Db → Result A × Db) → World → Result A × World
  attempt none run w = let (r, d) = run w.db in (r, record w { db = d })
  attempt (some t) run w = (err (driver t), w)

  -- One SQL statement: either the outage that is due, or its effect on the tables.
  unfoldable pub statement : (Db → Result A × Db) → M A
  statement run w = let (f, rest) = strike w.faults in attempt f run (record w { faults = rest })

-- The fields that an update of the tables leaves alone.
abbrev pub now_of : M ℕ
now_of w = (ok w.now, w)
