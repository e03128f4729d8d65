-- ===== src/Worker/Session/Pending.antt =====
-- `RememberToolCall` and `PopToolCall` on the pending tool calls of a session.
use taffy_assistant.Base.{String, false, none, some, List, [], ◌∷◌, ◌≡◌, refl, arith, ◌==◌, eq_iff}
use taffy_assistant.Worker.Session.{
  Session, PendingToolCall, lookup_call, delete_call, remember_tool_call, pop_tool_call,
}

lookup-delete_same :
    (id : String) (calls : List (String × PendingToolCall))
    → lookup_call id (delete_call id calls) ≡ none
unfolding lookup_call delete_call
lookup-delete_same id [] = refl
lookup-delete_same id ((k, p) ∷ rest) = ground (arith, lookup-delete_same id rest)

lookup-delete_other :
    (id other : String) (calls : List (String × PendingToolCall))
    → (other == id) ≡ false
    → lookup_call other (delete_call id calls) ≡ lookup_call other calls
unfolding lookup_call delete_call
lookup-delete_other id other [] h = refl
lookup-delete_other id other ((k, p) ∷ rest) h =
    ground
      (arith, lookup-delete_other id other rest h, eq_iff k id, eq_iff k other, eq_iff other id)

-- A tool call that is remembered is found by its id, with the latest name and arguments; it is found
-- only once, since a second call finds nothing; and neither remembering nor popping it changes what
-- is found under any other id.
pub pop_tool_call-remember_tool_call :
    (id name arguments other : String) (s : Session)
    → (other == id) ≡ false
    → let s' = remember_tool_call id name arguments s in
      let (found, s'') = pop_tool_call id s' in
      (found ≡ some (record { name = name; arguments = arguments }))
      × ((pop_tool_call id s'').0 ≡ none)
      × ((pop_tool_call other s').0 ≡ (pop_tool_call other s).0)
      × ((pop_tool_call other s'').0 ≡ (pop_tool_call other s).0)
unfolding remember_tool_call pop_tool_call lookup_call delete_call
pop_tool_call-remember_tool_call id name arguments other s h = ground (
  arith,
  eq_iff id id,
  eq_iff id other,
  eq_iff other id,
  lookup-delete_same id s.tool_calls,
  lookup-delete_same id (delete_call id s.tool_calls),
  lookup-delete_other id other s.tool_calls h,
  lookup-delete_other id other (delete_call id s.tool_calls) h,
)
