-- ===== src/Baby/Manager/Updates.antt =====
-- What `Update` does to the stored states and to the subscribers' view of them.
use nanit_onvif.Prelude.{
  ◌≡◌, inl, inr, false, none, some, String, arith, if◌then◌else◌, Bool-cases, Option-cases, lookup,
  insert, lookup-insert, String_eq, ◌==◌, true, refl,
}
use nanit_onvif.Baby.State.{State, new_state, merge}
use nanit_onvif.Baby.State.Overlay.{overlay}
use nanit_onvif.Baby.State.Merge.{merge-eq-overlay, merge-same_iff}
use nanit_onvif.Baby.Manager.{StateManager, notify_subscribers, store, update, get_baby_state}

module _ (m : StateManager) (uid : String) (u : State) where
  -- The new contents of the map, and whether subscribers are told.
  store_known :
      (s : State)
      → lookup uid m.babies_by_uid ≡ some s
      → store m uid u ≡ (
          if (merge s u).1
          then (record m { babies_by_uid = insert uid (merge s u).0 m.babies_by_uid }, true)
          else (m, false))
  unfolding store
  store_known s h = rw (h, store) refl

  store_first :
      lookup uid m.babies_by_uid ≡ none
      → store m uid u
        ≡ (record m { babies_by_uid = insert uid (merge new_state u).0 m.babies_by_uid }, true)
  unfolding store
  store_first h = rw (h, store) refl

  -- Writing the overlay back into the map is all that an update does to the stored states.
  stored_overlay :
      (s : State) (j : String)
      → get_baby_state m uid ≡ s
      → get_baby_state (record m { babies_by_uid = insert uid (merge s u).0 m.babies_by_uid }) j
        ≡ (if uid == j then overlay (get_baby_state m uid) u else get_baby_state m j)
  unfolding get_baby_state
  stored_overlay s j h =
      ground (arith, h, merge-eq-overlay s u, lookup-insert uid j (merge s u).0 m.babies_by_uid)

  get_known : (s : State) → lookup uid m.babies_by_uid ≡ some s → get_baby_state m uid ≡ s
  unfolding get_baby_state
  get_known s h = rw (h, get_baby_state) refl

  get_unknown : lookup uid m.babies_by_uid ≡ none → get_baby_state m uid ≡ new_state
  unfolding get_baby_state
  get_unknown h = rw (h, get_baby_state) refl

  -- What `Update` does under `stateMutex`.
  pub get_baby_state-store :
      (j : String)
      → get_baby_state (store m uid u).0 j
        ≡ (if uid == j then overlay (get_baby_state m uid) u else get_baby_state m j)
  get_baby_state-store j = elim (Option-cases (lookup uid m.babies_by_uid)) [
    | inl h ↦ rw (store_first h) (stored_overlay new_state j (get_unknown h))
    | inr (s, h) ↦ elim (Bool-cases (merge s u).1) [
      | inl new ↦ rw (store_known s h, new) (stored_overlay s j (get_known s h))
      | inr old ↦
          rw (store_known s h, old)
            (ground (arith, get_known s h, (merge-same_iff s u).0 old, String_eq.beq_iff uid j))
    ]
  ]

  pub store_quiet : (store m uid u).1 ≡ false → (store m uid u).0 ≡ m
  store_quiet quiet = elim (Option-cases (lookup uid m.babies_by_uid)) [
    | inl h ↦ cc (store_first h, quiet)
    | inr (s, h) ↦ elim (Bool-cases (merge s u).1) [
      | inl new ↦ cc (rw (store_known s h, new) at quiet)
      | inr old ↦ rw (store_known s h, old) refl
    ]
  ]

-- After `Update` the baby's state is its state before (the empty one for an unknown baby) overlaid
-- by the update; the states of the other babies are what they were.
pub get_baby_state-update :
    (m : StateManager) (uid : String) (u : State) (j : String)
    → get_baby_state (update m uid u) j
      ≡ (if uid == j then overlay (get_baby_state m uid) u else get_baby_state m j)
unfolding update notify_subscribers get_baby_state
get_baby_state-update m uid u j = elim (Bool-cases (store m uid u).1) [
  | inl told ↦ rw told (get_baby_state-store m uid u j)
  | inr quiet ↦ rw quiet (get_baby_state-store m uid u j)
]
