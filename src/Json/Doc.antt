-- ===== src/Json/Doc.antt =====
-- JSON as encoding/json reads it: a byte string is empty, malformed (with the text of its syntax
-- error) or a document. White space and the spelling of a number or a text are forgotten.
use taffy_assistant.Base.{String, Bool, Option, none, some, ℤ, ◌==◌, if◌then◌else◌, List, [], ◌∷◌}

mutual
  pub data Json : Type 0 where
    null : Json
    bool : Bool → Json
    -- An integer literal; `real` is any other number, with its text.
    int : ℤ → Json
    real : String → Json
    str : String → Json
    arr : Items → Json
    obj : Fields → Json

  pub data Items : Type 0 where
    nil : Items
    cons : Json → Items → Items

  pub data Fields : Type 0 where
    end : Fields
    field : String → Json → Fields → Fields

-- A `json.RawMessage`, or the text of a frame.
pub data Raw : Type 0 where
  empty : Raw
  malformed : String → Raw
  doc : Json → Raw

or_else : Option Json → Option Json → Option Json
or_else none d = d
or_else (some v) d = some v

-- `ev[key]` of a `map[string]any`: the last entry of a repeated key counts.
unfoldable pub get : String → Fields → Option Json
unfolding or_else
get k end = none
get k (field j v rest) = or_else (get k rest) (if j == k then some v else none)

-- `ev[key].(string)`: the empty text where there is none.
unfoldable pub get_string : String → Fields → String
unfolding get
get_string k fs = elim (get k fs) [ some (str s) ↦ s | _ ↦ "" ]

-- `json.Unmarshal` into a `map[string]any`: the entries, or no map. `null` leaves the map nil, which
-- reads as an empty one.
unfoldable pub fields_of : Raw → Option Fields
fields_of (doc (obj fs)) = some fs
fields_of (doc null) = some end
fields_of _ = none

-- The elements of an array, each as a `json.RawMessage`.
unfoldable pub raw_items : Items → List Raw
raw_items nil = []
raw_items (cons v rest) = doc v ∷ raw_items rest
