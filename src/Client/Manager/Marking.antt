-- ===== src/Client/Manager/Marking.antt =====
-- pkg/client/websocket.go: what the flag of the websocket in the baby's state says.
use nanit_onvif.Prelude.{
  ℕ, ◌≡◌, Bool, true, false, ◌||◌, List, [], ◌∷◌, get_elem?, eqb_iff, refl, ap, ◌∙◌, inl, inr,
  Bool-cases, Option-cases, beq_refl, String_eq, sym,
}
use nanit_onvif.Baby.State.{new_state, set_websocket_alive, get_is_websocket_alive}
use nanit_onvif.Baby.State.Overlay.{overlay}
use nanit_onvif.Baby.Manager.{get_baby_state}
use nanit_onvif.Baby.Manager.Updates.{get_baby_state-update}
use nanit_onvif.Client.Manager.{
  ReadyState, WebsocketConnectionManager, with_ready_connection, on_connected, mark_alive, has,
  notify_ready_handler, notify_next, on_disconnected, fail_attempt, Step, registers, notifies,
  announces, disconnects, fails, step, run,
}

-- What the state of the manager's baby says of the websocket.
abbrev pub flag : WebsocketConnectionManager → Bool
flag m = get_is_websocket_alive (get_baby_state m.states m.baby_uid)

-- Whether the connection was lost, and what the flag should be: the goroutine's mark sets it, and the
-- first loss of the connection, but no later one, takes it away.
abbrev pub is_lost : List Step → Bool
is_lost [] = false
is_lost (disconnects ∷ ss) = true
is_lost (_ ∷ ss) = is_lost ss

abbrev pub flag_after : Bool → Bool → List Step → Bool
flag_after lost b [] = b
flag_after lost b (announces ∷ ss) = flag_after lost true ss
flag_after true b (disconnects ∷ ss) = flag_after true b ss
flag_after false b (disconnects ∷ ss) = flag_after true false ss
flag_after lost b (_ ∷ ss) = flag_after lost b ss

marked : (b : Bool) (m : WebsocketConnectionManager) → flag (mark_alive b m) ≡ b
unfolding mark_alive overlay
marked b m =
    rw
      (
        get_baby_state-update m.states m.baby_uid (set_websocket_alive b new_state) m.baby_uid,
        beq_refl m.baby_uid,
      )
      refl

notified_same :
    (n : ℕ) (m : WebsocketConnectionManager)
    → (flag (notify_next n m) ≡ flag m) × ((notify_next n m).disconnected ≡ m.disconnected)
unfolding notify_next notify_ready_handler
notified_same n m = elim (Option-cases (get_elem? m.pending n)) [
  | inl missing ↦ rw (notify_next, missing) (refl, refl)
  | inr ((r, h), found) ↦ elim (Bool-cases (has r.attempt m.canceled)) [
    | inl dead ↦ rw (notify_next, found, notify_ready_handler, dead) (refl, refl)
    | inr lives ↦ rw (notify_next, found, notify_ready_handler, lives) (refl, refl)
  ]
]

or_true : (b : Bool) → b || true ≡ true
or_true true = refl
or_true false = refl

lost_again :
    (a : ℕ) (m : WebsocketConnectionManager) → has a m.disconnected ≡ true → on_disconnected a m ≡ m
unfolding on_disconnected
lost_again a m lost = rw (on_disconnected, lost) refl

lost_first :
    (a : ℕ) (m : WebsocketConnectionManager)
    → has a m.disconnected ≡ false
    → (has a (on_disconnected a m).disconnected ≡ true) × (flag (on_disconnected a m) ≡ false)
unfolding on_disconnected get_baby_state
lost_first a m open_yet =
    rw (on_disconnected, open_yet) (rw ((eqb_iff a a).1 refl) refl, marked false m)

loses :
    (a : ℕ) (ss : List Step) (m : WebsocketConnectionManager)
    → (has a (on_disconnected a m).disconnected ≡ true)
      × (flag_after true (flag (on_disconnected a m)) ss
          ≡ flag_after (has a m.disconnected) (flag m) (disconnects ∷ ss))
loses a ss m = elim (Bool-cases (has a m.disconnected)) [
  | inl lost ↦
      let again = lost_again a m lost in
      (
        ap (λ x. has a x.disconnected) again ∙ lost,
        ap (λ x. flag_after true (flag x) ss) again
            ∙ sym (ap (λ b. flag_after b (flag m) (disconnects ∷ ss)) lost),
      )
  | inr open_yet ↦
      let (lost, down) = lost_first a m open_yet in
      (
        lost,
        ap (λ f. flag_after true f ss) down
            ∙ sym (ap (λ b. flag_after b (flag m) (disconnects ∷ ss)) open_yet),
      )
]

module _ (r : ReadyState) where
  run-Marks :
      (ss : List Step) (m : WebsocketConnectionManager)
      → let lost = has r.attempt m.disconnected in
        (has r.attempt (run r ss m).disconnected ≡ lost || is_lost ss)
        × (flag (run r ss m) ≡ flag_after lost (flag m) ss)
  unfolding run step with_ready_connection fail_attempt
  run-Marks [] m = elim (Bool-cases (has r.attempt m.disconnected)) [
    | inl lost ↦ rw lost (refl, refl)
    | inr open_yet ↦ rw open_yet (refl, refl)
  ]
  run-Marks (registers h ∷ ss) m = run-Marks ss (with_ready_connection h m)
  run-Marks (fails ∷ ss) m = run-Marks ss (fail_attempt r.attempt m)
  run-Marks (notifies n ∷ ss) m =
      let (same, lost) = notified_same n m in
      let (e0, e1) = run-Marks ss (notify_next n m) in (rw lost at e0, rw (lost, same) at e1)
  run-Marks (announces ∷ ss) m =
      let (e0, e1) = run-Marks ss (mark_alive true m) in (e0, rw (marked true m) at e1)
  run-Marks (disconnects ∷ ss) m =
      let (e0, e1) = run-Marks ss (on_disconnected r.attempt m) in
      let (lost, same) = loses r.attempt ss m in
      (
        e0 ∙ ap (λ b. b || is_lost ss) lost ∙ sym (or_true (has r.attempt m.disconnected)),
        e1 ∙ ap (λ b. flag_after b (flag (on_disconnected r.attempt m)) ss) lost ∙ same,
      )

-- After a connection is made and whatever the order of what then goes on, the state says of the
-- websocket what the goroutine's mark and the first loss of the connection have made of it, the later
-- of the two: where the connection is lost before the goroutine has marked it as alive, the baby
-- counts as connected, though its connection is lost.
pub run-stale_alive :
    (r : ReadyState) (ss : List Step) (m : WebsocketConnectionManager)
    → has r.attempt m.disconnected ≡ false
    → let m' = run r ss (on_connected r m) in
      (has r.attempt m'.disconnected ≡ is_lost ss) × (flag m' ≡ flag_after false (flag m) ss)
unfolding on_connected
run-stale_alive r ss m fresh = rw fresh at (run-Marks r ss (on_connected r m))
