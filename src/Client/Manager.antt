-- ===== src/Client/Manager.antt =====
-- pkg/client/websocket.go: the manager of websocket connections. A handler, a connection and an
-- attempt have numbers. The goroutine of OnConnected goes step by step beside the other calls.
pub mod Handlers
pub mod Marking
use nanit_onvif.Prelude.{
  ℕ, Bool, true, false, Option, none, some, String, List, [], ◌∷◌, ◌++◌, if◌then◌else◌, eqb, map,
  get_elem?, zero, suc,
}
use nanit_onvif.Baby.State.{new_state, set_websocket_alive}
use nanit_onvif.Baby.Manager.{StateManager, update}

-- `readyState`: the attempt whose context children run in, and the connection.
pub record ReadyState : Type 0 where
  pub attempt : ℕ
  pub connection : ℕ

-- `pending` are the notifications that goroutines still have to make, with the state that they read;
-- `calls` the handlers started so far, the last first; `disconnected` the attempts whose `once` is
-- used up, and `canceled` those whose context is cancelled.
pub record WebsocketConnectionManager : Type 0 where
  pub baby_uid : String
  pub ready_state : Option ReadyState
  pub ready_subscribers : List ℕ
  pub pending : List (ReadyState × ℕ)
  pub calls : List (ReadyState × ℕ)
  pub disconnected : List ℕ
  pub canceled : List ℕ
  pub states : StateManager

-- `NewWebsocketConnectionManager`; `keepalive` is the handler that sends keepalive messages.
unfoldable pub new_websocket_connection_manager :
    String → ℕ → StateManager → WebsocketConnectionManager
new_websocket_connection_manager uid keepalive states = record {
  baby_uid = uid;
  ready_state = none;
  ready_subscribers = keepalive ∷ [];
  pending = [];
  calls = [];
  disconnected = [];
  canceled = [];
  states = states;
}

-- `WithReadyConnection` up to the unlock: the handler is appended, and, where there is a connection,
-- still has to be notified of it.
unfoldable pub with_ready_connection : ℕ → WebsocketConnectionManager → WebsocketConnectionManager
with_ready_connection h m = record m {
  ready_subscribers = m.ready_subscribers ++ h ∷ [];
  pending = m.pending ++ elim m.ready_state [ none ↦ [] | some r ↦ (r, h) ∷ [] ];
}

-- The goroutine of `OnConnected`: the part under the lock, with the handlers that it copies, and the
-- update.
unfoldable pub on_connected : ReadyState → WebsocketConnectionManager → WebsocketConnectionManager
on_connected r m = record m {
  ready_state = some r;
  pending = m.pending ++ map (λ h. (r, h)) m.ready_subscribers;
}

unfoldable pub mark_alive : Bool → WebsocketConnectionManager → WebsocketConnectionManager
unfolding update
mark_alive b m = record m { states = update m.states m.baby_uid (set_websocket_alive b new_state) }

abbrev pub has : ℕ → List ℕ → Bool
has a [] = false
has a (b ∷ bs) = if eqb a b then true else has a bs

-- `notifyReadyHandler`: `RunAsChild` starts no handler in a context that is cancelled.
unfoldable pub notify_ready_handler :
    ℕ → ReadyState → WebsocketConnectionManager → WebsocketConnectionManager
notify_ready_handler h r m =
    if has r.attempt m.canceled then m else record m { calls = (r, h) ∷ m.calls }

abbrev pub remove_at {ℓ} : {A : Type ℓ} → ℕ → List A → List A
remove_at n [] = []
remove_at zero (x ∷ xs) = xs
remove_at (suc n) (x ∷ xs) = x ∷ remove_at n xs

-- One of the notifications that are still to be made; goroutines make theirs in any order.
unfoldable pub notify_next : ℕ → WebsocketConnectionManager → WebsocketConnectionManager
unfolding notify_ready_handler
notify_next n m = elim (get_elem? m.pending n) [
  | none ↦ m
  | some (r, h) ↦ notify_ready_handler h r (record m { pending = remove_at n m.pending })
]

-- `OnDisconnected` before its `Fail`, once for each attempt.
unfoldable pub on_disconnected : ℕ → WebsocketConnectionManager → WebsocketConnectionManager
unfolding mark_alive
on_disconnected attempt m =
    if has attempt m.disconnected
    then m
    else (let m' : WebsocketConnectionManager = mark_alive false m in
        record m' { disconnected = attempt ∷ m'.disconnected })

-- The `Fail` of an attempt: the end of `OnDisconnected`, or `OnConnectError`.
unfoldable pub fail_attempt : ℕ → WebsocketConnectionManager → WebsocketConnectionManager
fail_attempt attempt m = record m { canceled = attempt ∷ m.canceled }

-- `OnBinaryMessage`: the connection that handles a message, none where it is dropped.
unfoldable pub receiver : WebsocketConnectionManager → Option ℕ
receiver m = elim m.ready_state [ none ↦ none | some r ↦ some r.connection ]

-- After a connection is made: registrations, notifications, the update of its goroutine, the loss of
-- the connection, and the cancellation of the attempt, for that or for another reason.
pub data Step : Type 0 where
  registers : ℕ → Step
  notifies : ℕ → Step
  announces : Step
  disconnects : Step
  fails : Step

unfoldable pub step : ReadyState → Step → WebsocketConnectionManager → WebsocketConnectionManager
unfolding with_ready_connection notify_next mark_alive on_disconnected fail_attempt
step r (registers h) m = with_ready_connection h m
step r (notifies n) m = notify_next n m
step r announces m = mark_alive true m
step r disconnects m = on_disconnected r.attempt m
step r fails m = fail_attempt r.attempt m

unfoldable pub run :
    ReadyState → List Step → WebsocketConnectionManager → WebsocketConnectionManager
unfolding step
run r [] m = m
run r (s ∷ ss) m = run r ss (step r s m)
