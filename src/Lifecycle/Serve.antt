-- ===== src/Lifecycle/Serve.antt =====
-- Runs of the server as runs of the abstract device.
use taffy_assistant.Base.{
  ℕ, Option, none, some, String, List, [], ◌∷◌, ◌≡◌, ◌≢◌, refl, ap, subst, All,
}
use taffy_assistant.Store.{Collation, World, M}
use taffy_assistant.Service.Users.{Bcrypt}
use taffy_assistant.Jwt.{Text, Claims, JwtLibrary, Redis, parse_token}
use taffy_assistant.Http.Accounts.{bearer_token}
use taffy_assistant.Http.Guard.{require_auth, with_token, with_claims}
use taffy_assistant.Http.Router.{
  Route, Request, Server, serve, handle, Guarded, register, login, guarded, Answer,
}
use taffy_assistant.Http.Router
use taffy_assistant.Http.Moves.Serve.{handle-Moves, register_route-Moves, login_route-Moves}
use taffy_assistant.Voice.Moves.Entry.{serve_voice-Moves}
use taffy_assistant.Lifecycle.Quiet.{
  same_phases, create-same, upsert-same, update_last_seen-same, same_phases-Talking,
}
use taffy_assistant.Lifecycle.Runs.{
  Incoming, request, report, session, Arrival, user_of, holder, asks, caller, sender, meets,
  kept-db, accepted, accept, run_all, callers,
}
use taffy_assistant.Service.Moves.Reports.{receive-Moves}
use taffy_assistant.Lifecycle.{Phase, owned, phase, Course, Course-other}
use taffy_assistant.Lifecycle.Statements.{lifecycle-Statements}

-- A run of the abstract device under the requests of these users; a request of nobody does nothing.
pub data Trace : List (Option ℕ) → Phase → Phase → Type 0 where
  end : {p : Phase} → Trace [] p p
  nobody : {cs : List (Option ℕ)} {p q : Phase} → Trace cs p q → Trace (none ∷ cs) p q
  somebody :
      {u : ℕ} {cs : List (Option ℕ)} {p q s : Phase}
      → Course u p q
      → Trace cs q s
      → Trace (some u ∷ cs) p s

module _ ⦃c : Collation⦄ ⦃b : Bcrypt⦄ ⦃j : JwtLibrary⦄ (r : Redis) (text_of : List ℕ → String)
    (s : Server) where
  open r use {Store}

  -- What a request from this user, or from nobody, does to the device.
  abbrev Lawful : Option ℕ → Phase → Phase → Type 0
  Lawful none p q = q ≡ p
  Lawful (some u) p q = Course u p q

  module _ (q : Request) (store : Option Store) (w : World) (id : String) where
    abbrev next : Guarded → Option ℕ → M (Answer r)
    next route = handle r s q store route

    claims-Lawful :
        (route : Guarded) (x : Option Claims)
        → Lawful
            (user_of r text_of s x)
            (phase id w.db)
            (phase id (with_claims r (Router.silent r store) (next route) x w).1.db)
    claims-Lawful route none = refl
    claims-Lawful route (some claims) =
        (handle-Moves r (lifecycle-Statements claims.user_id) s q store route).along w id

    token-Lawful :
        (route : Guarded) (t : Option Text)
        → Lawful (holder r text_of s w.now store t) (phase id w.db) (
            phase id
              (with_token r (Router.silent r store) (next route) s.auth.secret store t w).1.db)
    token-Lawful route none = refl
    token-Lawful route (some t) = claims-Lawful route (parse_token r s.auth.secret t w.now store)

    guarded-Lawful :
        (route : Guarded) (header : Text)
        → Lawful (holder r text_of s w.now store (bearer_token header)) (phase id w.db) (
            phase id
              (require_auth r
                (Router.silent r store)
                (next route)
                s.auth.secret
                store
                header
                w).1.db)
    unfolding require_auth
    guarded-Lawful route [] = refl
    guarded-Lawful route (x ∷ xs) = token-Lawful route (bearer_token (x ∷ xs))

    dispatched-Lawful :
        (route : Route)
        → Lawful
            (asks r text_of s w.now store q.authorization route)
            (phase id w.db)
            (phase id (Router.dispatched r s q store route w).1.db)
    dispatched-Lawful (register method body) =
        (register_route-Moves r {o = same_phases} create-same s q store method body).along w id
    dispatched-Lawful (login method body) =
        (login_route-Moves r {o = same_phases} s q store method body).along w id
    dispatched-Lawful (guarded route) = guarded-Lawful route q.authorization

    serve-Lawful :
        Lawful
          (caller r text_of s w.now store q)
          (phase id w.db)
          (phase id (serve r s q store w).1.db)
    unfolding serve
    serve-Lawful = dispatched-Lawful q.route

  Trace-Lawful :
      (who : Option ℕ) (cs : List (Option ℕ)) (p q t : Phase)
      → Lawful who p q
      → Trace cs q t
      → Trace (who ∷ cs) p t
  Trace-Lawful none cs p q t h k = nobody (subst (λ x. Trace cs x t) h k)
  Trace-Lawful (some u) cs p q t h k = somebody h k

  accepted-Lawful :
      (store : Option Store) (w : World) (x : Incoming) (id : String)
      → Lawful
          (sender r text_of s w.now store x)
          (phase id w.db)
          (phase id (accepted r text_of s store w x).0.db)
  accepted-Lawful store w (request q) id =
      rw (kept-db r text_of s store (serve r s q store w)) (serve-Lawful q store w id)
  accepted-Lawful store w (report bridge f m) id =
      (receive-Moves {o = same_phases} upsert-same update_last_seen-same text_of bridge f m).along w
        id
  accepted-Lawful store w (session d id' token events) id =
      serve_voice-Moves same_phases-Talking d id' token events w id

  -- Every run of REST requests, messages of devices and voice sessions, whatever fails and whenever
  -- they come, is for each device id a run of the abstract device: a request whose token is valid moves
  -- the device along the steps of the token's user only (bind a free device, unbind an own one, leave
  -- an own one behind), and any other request, every message of a device and every voice session leaves
  -- it where it is.
  pub run_all-Trace :
      (arrivals : List Arrival) (w : World) (store : Option Store) (id : String)
      → Trace
          (callers r text_of s (w, store) arrivals)
          (phase id w.db)
          (phase id (run_all r text_of s (w, store) arrivals).0.db)
  run_all-Trace [] w store id = end
  run_all-Trace (a ∷ rest) w store id =
      Trace-Lawful (sender r text_of s a.now store a.incoming) _ _ _ _
        (accepted-Lawful store (meets r text_of s w a) a.incoming id)
        (run_all-Trace rest (accept r text_of s w store a).0 (accept r text_of s w store a).1 id)

Trace-other :
    (cs : List (Option ℕ)) (p q : Phase) (owner : ℕ)
    → Trace cs p q
    → p ≡ owned owner
    → All (λ c. c ≢ some owner) cs
    → q ≡ owned owner
Trace-other [] p q owner end h others = h
Trace-other (none ∷ cs) p q owner (nobody k) h others = Trace-other cs p q owner k h others.1
Trace-other (some u ∷ cs) p q owner (somebody x k) h others =
    Trace-other cs _ q owner k (Course-other owner x h (λ e. others.0 (ap some e))) others.1

module _ ⦃c : Collation⦄ ⦃b : Bcrypt⦄ ⦃j : JwtLibrary⦄ (r : Redis) (text_of : List ℕ → String)
    (s : Server) where
  -- A device with an owner keeps that owner through every run of REST requests none of which carries a
  -- valid token of the owner, of messages of devices and of voice sessions, whatever fails.
  pub run_all-owner :
      (arrivals : List Arrival) (w : World) (store : Option r.Store) (id : String) (owner : ℕ)
      → phase id w.db ≡ owned owner
      → All (λ who. who ≢ some owner) (callers r text_of s (w, store) arrivals)
      → phase id (run_all r text_of s (w, store) arrivals).0.db ≡ owned owner
  run_all-owner arrivals w store id owner h others =
      Trace-other _ _ _ owner (run_all-Trace r text_of s arrivals w store id) h others
