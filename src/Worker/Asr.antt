-- ===== src/Worker/Asr.antt =====
-- worker/internal/handler/asr.go
use Prim.Native.Nat.{Ordering}
use Prim.Native.String.{compare}
use taffy_assistant.Base.{String, none, some, ◌==◌, if◌then◌else◌}
use taffy_assistant.Json.{Json, str, obj, Fields, end, field, Raw, doc, get_string, fields_of}

-- The entries of a `map[string]any` as `json.Marshal` writes them: by key, each once.
unfoldable pub put : String → Json → Fields → Fields
put key v end = field key v end
put key v (field k u rest) = elim (compare key k) [
  | Ordering.lt ↦ field key v (field k u rest)
  | Ordering.eq ↦ field key v rest
  | Ordering.gt ↦ field k u (put key v rest)
]

-- A later entry of the document overrides an earlier one.
unfoldable pub as_map : Fields → Fields → Fields
unfolding put
as_map acc end = acc
as_map acc (field k v rest) = as_map (put k v acc) rest

-- `ev["type"] = name` and the marshalling of `ev`.
unfoldable pub renamed : String → Fields → Raw
unfolding as_map
renamed name ev = doc (obj (put "type" (str name) (as_map end ev)))

-- `translateASREvent`.
unfoldable pub translate_asr_event : Raw → Raw
unfolding renamed
translate_asr_event raw = elim (fields_of raw) [
  | none ↦ raw
  | some ev ↦
      if get_string "type" ev == "partial"
      then renamed "asr_partial" ev
      else if get_string "type" ev == "final"
      then renamed "asr_final" ev
      else raw
]
