-- ===== src/Lifecycle/Tables.antt =====
-- The tables through the runs of the server.
use taffy_assistant.Base.{ℕ, String, Option, List, [], ◌∷◌}
use taffy_assistant.Store.{Collation, World}
use taffy_assistant.Repo.Wf.{IsWf}
use taffy_assistant.Service.Users.{Bcrypt}
use taffy_assistant.Service.Moves.Wf.{
  well_formed, well_formed-Statements, upsert-Wf, update_last_seen-Wf,
}
use taffy_assistant.Voice.Moves.Wf.{well_formed-Talking}
use taffy_assistant.Voice.Moves.Entry.{serve_voice-Moves}
use taffy_assistant.Service.Moves.Reports.{receive-Moves}
use taffy_assistant.Jwt.{JwtLibrary, Redis}
use taffy_assistant.Http.Router.{Server, serve}
use taffy_assistant.Http.Moves.Serve.{serve-Moves}
use taffy_assistant.Lifecycle.Runs.{
  Incoming, request, report, session, Arrival, accepted, accept, meets, run_all, kept-db,
}

module _ ⦃c : Collation⦄ ⦃b : Bcrypt⦄ ⦃j : JwtLibrary⦄ (r : Redis) (text_of : List ℕ → String)
    (s : Server) where
  accepted-IsWf :
      (store : Option r.Store) (w : World) (x : Incoming)
      → IsWf w.db
      → IsWf (accepted r text_of s store w x).0.db
  accepted-IsWf store w (request q) h =
      rw (kept-db r text_of s store (serve r s q store w))
        ((serve-Moves r well_formed-Statements s q store).along w h)
  accepted-IsWf store w (report bridge f m) h =
      (receive-Moves {o = well_formed} upsert-Wf update_last_seen-Wf text_of bridge f m).along w h
  accepted-IsWf store w (session d id token events) h =
      serve_voice-Moves well_formed-Talking d id token events w h

  -- Every run of REST requests, messages of devices and voice sessions keeps the tables well formed,
  -- whatever fails and whenever they come: the ids of users, devices and states stay unique, user ids
  -- stay below the next number, every owner, state, scene, conversation, message and command refers to rows that
  -- exist, and a device with an owner has no bind code left.
  pub run_all-IsWf :
      (arrivals : List Arrival) (w : World) (store : Option r.Store)
      → IsWf w.db
      → IsWf (run_all r text_of s (w, store) arrivals).0.db
  run_all-IsWf [] w store h = h
  run_all-IsWf (a ∷ rest) w store h =
      run_all-IsWf rest (accept r text_of s w store a).0 (accept r text_of s w store a).1
        (accepted-IsWf store (meets r text_of s w a) a.incoming h)
