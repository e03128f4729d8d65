-- ===== src/Json/Decode.antt =====
-- `json.Unmarshal` into a struct, by the rules of encoding/json: a key belongs to a field whose name
-- it equals when case is folded, a later entry overrides an earlier one, `null` leaves a plain field
-- alone and clears a pointer, and a value of a wrong type is skipped; the first such error is
-- returned at the end.
use Prim.Native.Char.{code}
use Prim.Native.Nat.{◌^◌}
use taffy_assistant.Base.{
  ℕ, ◌+◌, String, Bool, true, false, ◌&&◌, Option, none, some, ℤ, pos, negsuc, List, [], ◌∷◌, ◌⧺◌,
  leb, ltb, eqb, if◌then◌else◌,
}
use taffy_assistant.Json.Doc.{
  Json, null, bool, int, real, str, arr, obj, Fields, end, field, Raw, empty, malformed, doc,
}

-- The letter that folding makes of a character: ASCII capitals, the Kelvin sign and the long s.
unfoldable pub fold : ℕ → ℕ
fold c =
    if leb 65 c && leb c 90
    then c + 32
    else if eqb c 0x212a
    then 107
    else if eqb c 0x17f
    then 115
    else c

unfoldable pub folded : String → List ℕ
unfolding fold
folded String.[] = []
folded (String.◌∷◌ c s) = fold (code c) ∷ folded s

unfoldable pub same_codes : List ℕ → List ℕ → Bool
same_codes [] [] = true
same_codes (a ∷ s) (b ∷ t) = eqb a b && same_codes s t
same_codes _ _ = false

unfoldable pub names : String → String → Bool
unfolding folded same_codes
names key name = same_codes (folded key) (folded name)

-- What a JSON value is called in an error.
unfoldable pub kind : Json → String
kind null = "null"
kind (bool b) = "bool"
kind (int n) = "number"
kind (real t) = "number " ⧺ t
kind (str s) = "string"
kind (arr xs) = "array"
kind (obj fs) = "object"

unfoldable pub mismatch : Json → String → String → String
unfolding kind
mismatch v place type =
    "json: cannot unmarshal " ⧺ kind v ⧺ " into Go " ⧺ place ⧺ " of type " ⧺ type

-- The first error stays.
unfoldable pub first : Option String → String → Option String
first none e = some e
first (some e) _ = some e

-- A decoder of one value into a place: the new content and the first error.
abbrev pub Into : Type 0 → Type 0
Into A = Json → A → Option String → A × Option String

unfoldable pub into_string : String → Into String
unfolding first mismatch
into_string place null old e = (old, e)
into_string place (str s) old e = (s, e)
into_string place v old e = (old, first e (mismatch v place "string"))

unfoldable pub into_bool : String → Into Bool
unfolding first mismatch
into_bool place null old e = (old, e)
into_bool place (bool b) old e = (b, e)
into_bool place v old e = (old, first e (mismatch v place "bool"))

-- int64, and `int` on a 64-bit machine.
unfoldable pub fits_int64 : ℤ → Bool
fits_int64 (pos n) = ltb n (2 ^ 63)
fits_int64 (negsuc n) = ltb n (2 ^ 63)

unfoldable pub into_int : String → String → Into ℤ
unfolding first mismatch fits_int64
into_int place type null old e = (old, e)
into_int place type (int n) old e =
    if fits_int64 n then (n, e) else (old, first e (mismatch (int n) place type))
into_int place type v old e = (old, first e (mismatch v place type))

-- A pointer to an int: allocated before the value is decoded, so that a wrong value leaves 0 behind.
unfoldable pub into_int_ptr : String → Into (Option ℤ)
unfolding into_int
into_int_ptr place null old e = (none, e)
into_int_ptr place v old e =
    let (n, e') = into_int place "int" v (elim old [ none ↦ pos 0 | some n ↦ n ]) e in (some n, e')

-- A `json.RawMessage` takes any value as it is.
unfoldable pub into_raw : Into Raw
into_raw v old e = (doc v, e)

-- A struct: one step for each entry of an object, from the zero value.
unfoldable pub each_field {ℓ} :
    {S : Type ℓ}
    → (String → Json → S → Option String → S × Option String)
    → Fields
    → S
    → Option String
    → S × Option String
each_field step end s e = (s, e)
each_field step (field k v rest) s e = let (s', e') = step k v s e in each_field step rest s' e'

unfoldable pub unmarshal {ℓ} :
    {S : Type ℓ}
    → String
    → (String → Json → S → Option String → S × Option String)
    → S
    → Raw
    → S × Option String
unfolding each_field mismatch
unmarshal type step zero_value empty = (zero_value, some "unexpected end of JSON input")
unmarshal type step zero_value (malformed t) = (zero_value, some t)
unmarshal type step zero_value (doc null) = (zero_value, none)
unmarshal type step zero_value (doc (obj fs)) = each_field step fs zero_value none
unmarshal type step zero_value (doc v) = (zero_value, some (mismatch v "value" type))
