-- ===== src/Lifecycle/Quiet.antt =====
-- What changes neither the owner of a device nor whether it is there.
use taffy_assistant.Base.{
  ℕ, String, some, List, [], ◌∷◌, ◌≡◌, refl, ap, ◌∙◌, arith, select_one, update_rows,
}
use taffy_assistant.Model.{User, Device, DeviceState, online}
use taffy_assistant.Store.{Collation, World, M, ok}
use taffy_assistant.Store.Moves.{Preorder, Moves, moves_wrapping, moves_statement}
use taffy_assistant.Repo.Users
use taffy_assistant.Repo.States
use taffy_assistant.Repo.Devices.{has_id}
use taffy_assistant.Repo.Devices
use taffy_assistant.Repo.Talks
use taffy_assistant.Voice.Moves.{Talking}
use taffy_assistant.Lifecycle.{phase, phase_of}

module _ ⦃c : Collation⦄ where
  -- Every device stays where it is.
  abbrev pub same_phases : Preorder
  same_phases = record {
    rel = λ d e. (id : String) → phase id e ≡ phase id d;
    stay = λ d id. refl;
    chain = λ d e f h k id. k id ∙ h id;
  }

  same_phase :
      {ds es : List Device} (id : String)
      → es ≡ ds
      → phase_of (select_one (has_id id) es) ≡ phase_of (select_one (has_id id) ds)
  same_phase id h = ap (λ ds. phase_of (select_one (has_id id) ds)) h

  moves_beside :
      {A : Type 0} {m : M A} → ((w : World) → (m w).1.devices ≡ w.devices) → Moves same_phases m
  moves_beside h = record { along = λ w id. same_phase id (h w) }

  pub create-same : (u : User) → Moves same_phases (Users.create u)
  unfolding Users.create
  create-same u = moves_beside (λ w. ground arith)

  pub upsert-same : (x : DeviceState) → Moves same_phases (States.upsert x)
  unfolding States.upsert States.upsert_row States.set_row
  upsert-same x = moves_beside (λ w. ground arith)

  seen_phase :
      (id j : String) (now : ℕ) (ds : List Device)
      → phase_of (
          select_one
            (has_id j)
            (update_rows (has_id id) (λ x. record x { last_seen = some now; status = online }) ds))
        ≡ phase_of (select_one (has_id j) ds)
  unfolding select_one update_rows
  seen_phase id j now [] = refl
  seen_phase id j now (x ∷ ds) = ground (arith, seen_phase id j now ds)

  pub update_last_seen-same : (id : String) → Moves same_phases (Devices.update_last_seen id)
  unfolding Devices.update_last_seen
  update_last_seen-same id = record {
    along = λ w.
        (moves_wrapping {o = same_phases} _ (
            moves_statement
              (λ d. (
                ok tt,
                record d {
                  devices =
                      update_rows (has_id id)
                        (λ x. record x { last_seen = some w.now; status = online }) d.devices;
                },
              ))
              (λ d j. seen_phase id j w.now d.devices))).along
          w;
  }

  pub same_phases-Talking : Talking same_phases
  unfolding Talks.create_conversation Talks.end_by_id Talks.create_message Talks.create_command
      Talks.update_result
  same_phases-Talking = record {
    upsert_state = upsert-same;
    insert_conversation = λ user device. moves_beside (λ w. ground arith);
    end_conversation = λ id. moves_beside (λ w. ground arith);
    insert_message = λ m. moves_beside (λ w. ground arith);
    insert_command = λ x. moves_beside (λ w. ground arith);
    update_result = λ id r. moves_beside (λ w. ground arith);
  }
