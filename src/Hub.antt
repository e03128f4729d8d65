-- ===== src/Hub.antt =====
-- The push hub of the clients: server/internal/hub/hub.go. A client's channel is a queue, and the
-- steps that other goroutines can come between are functions of their own.
pub mod Delivery
pub mod Race
pub mod Safety
use taffy_assistant.Base.{
  ℕ, suc, String, Bool, true, false, ◌&&◌, not, Option, none, some, List, [], ◌∷◌, ◌++◌, eqb, ltb,
  length, if◌then◌else◌, update_rows, select, select_one, map,
}

-- `sendBufferSize`.
abbrev pub send_buffer_size : ℕ
send_buffer_size = 32

-- `Client`: the number stands for its address, `listed` says that the hub's map holds it and
-- `closed` that its channel is closed.
pub record Client {ℓ} (E : Type ℓ) : Type ℓ where
  pub number : ℕ
  pub user_id : ℕ
  pub send : List E
  pub listed : Bool
  pub closed : Bool

-- The clients that were ever registered, oldest first, and whether a goroutine has panicked.
pub record Hub {ℓ} (E : Type ℓ) : Type ℓ where
  pub clients : List (Client E)
  pub next : ℕ
  pub panicked : Bool

module _ {ℓ} {E : Type ℓ} where
  -- `New`.
  unfoldable pub new : Hub E
  new = record { clients = []; next = 0; panicked = false }

  -- `Register`.
  unfoldable pub register : ℕ → Hub E → Hub E
  register user h = record h {
    clients =
        h.clients
        ++ record { number = h.next; user_id = user; send = []; listed = true; closed = false }
          ∷ [];
    next = suc h.next;
  }

  abbrev pub is_client : ℕ → Client E → Bool
  is_client n x = eqb x.number n

  -- The first half of `Close`, under the hub's lock: the client leaves the map.
  unfoldable pub unlist : ℕ → Hub E → Hub E
  unlist n h = record h {
    clients = update_rows (is_client n) (λ x. record x { listed = false }) h.clients;
  }

  -- The second half: the channel is closed. The map does not hold the client any more.
  unfoldable pub close_channel : ℕ → Hub E → Hub E
  close_channel n h = record h {
    clients =
        update_rows (λ x. is_client n x && not x.listed) (λ x. record x { closed = true })
          h.clients;
  }

  -- `Close`, with nothing in between.
  unfoldable pub close : ℕ → Hub E → Hub E
  unfolding unlist close_channel
  close n h = close_channel n (unlist n h)

  abbrev pub drop_oldest : List E → List E
  drop_oldest [] = []
  drop_oldest (e ∷ es) = es

  -- `writePump` takes the oldest event of the channel.
  unfoldable pub pump : ℕ → Hub E → Hub E
  pump n h = record h {
    clients = update_rows (is_client n) (λ x. record x { send = drop_oldest x.send }) h.clients;
  }

  abbrev pub is_target : ℕ → Client E → Bool
  is_target user x = eqb x.user_id user && x.listed

  -- The targets that `BroadcastToUser` copies under the lock.
  unfoldable pub targets : ℕ → Hub E → List ℕ
  targets user h = map (λ (x : Client E). x.number) (select (is_target user) h.clients)

  -- `select { case c.send <- data: default: }` on an open channel.
  abbrev pub offered : E → Client E → Client E
  offered e x =
      if ltb (length x.send) send_buffer_size then record x { send = x.send ++ e ∷ [] } else x

  abbrev pub sent_to : ℕ → E → Option (Client E) → Hub E → Hub E
  sent_to n e none h = h
  sent_to n e (some x) h =
      if x.closed
      then record h { panicked = true }
      else record h { clients = update_rows (is_client n) (offered e) h.clients }

  -- One round of the loop. A send on a closed channel panics, also under `select` with `default`.
  unfoldable pub send_one : E → ℕ → Hub E → Hub E
  send_one e n h = sent_to n e (select_one (is_client n) h.clients) h

  unfoldable pub send_all : E → List ℕ → Hub E → Hub E
  unfolding send_one
  send_all e [] h = h
  send_all e (n ∷ ns) h = send_all e ns (send_one e n h)

  -- `BroadcastToUser`, with nothing in between.
  unfoldable pub broadcast_to_user : ℕ → E → Hub E → Hub E
  unfolding send_all targets
  broadcast_to_user user e h = send_all e (targets user h) h
