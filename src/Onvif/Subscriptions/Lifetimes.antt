-- ===== src/Onvif/Subscriptions/Lifetimes.antt =====
-- pkg/onvif/events.go: a subscription from its creation to its end.
use nanit_onvif.Onvif.Subscriptions.Requests.{message_limit_positive, handle_subscription_known}
use nanit_onvif.Prelude.{
  ℕ, ◌+◌, ◌*◌, ◌^◌, ◌%◌, ◌<◌, ◌≤◌, pos, Bool, true, false, none, some, String, List, [], ◌∷◌, ltb,
  lookup, insert, String_eq, Text, codes, ◌==◌, ◌≡◌, refl, ap, ◌∙◌, inl, inr, Bool-cases,
  lookup-insert, arith, beq_refl,
}
use nanit_onvif.Onvif.Events.{
  EventManager, Subscription, Notification, emit, enqueue, map_values, janitor_tick, evict,
  drain_end, drain_count,
}
use nanit_onvif.Onvif.Soap.{get_request_action}
use nanit_onvif.Onvif.Durations.{second, u64}
use nanit_onvif.Onvif.Subscriptions.{
  World, seconds_long, instant, term_seconds, create_subscription, handle_events_service,
  subscription_id, find_sub, message_limit, with_sub, on_subscription, handle_subscription,
  pull_end,
}

lookup-map_values :
    (f : Subscription → Subscription) (key : String) (m : List (String × Subscription))
    → lookup key (map_values f m) ≡ (elim (lookup key m) [ none ↦ none | some s ↦ some (f s) ])
unfolding lookup map_values
lookup-map_values f key [] = refl
lookup-map_values f key ((k, s) ∷ m) = elim (Bool-cases (k == key)) [
  | inl same ↦ rw (lookup, same) refl
  | inr other ↦ rw (lookup, other) (lookup-map_values f key m)
]

abbrev new_sub : World → ℕ → Subscription
new_sub w ttl = record {
  id = w.random_id;
  terminate_at = instant w.now ttl;
  queue = [];
  waiters = [];
}

created_sub :
    (w : World) (body : Text) (em : EventManager)
    → get_request_action body ≡ codes "CreatePullPointSubscription"
    → (s : Subscription) × (lookup w.random_id (handle_events_service w body em).0.subs ≡ some s)
      × (s.queue ≡ [])
unfolding handle_events_service create_subscription
created_sub w body em creates =
    rw (handle_events_service, creates)
      (
        new_sub w (seconds_long (term_seconds w body (codes "InitialTerminationTime"))),
        lookup-insert w.random_id w.random_id _ em.subs ∙ rw (beq_refl w.random_id) refl,
        refl,
      )

drain_count-one : (limit : ℕ) → 0 < limit → drain_count (pos limit) 1 ≡ 1
drain_count-one limit h = ground arith

taken_one :
    (limit : ℕ) (msg : Notification) (s : Subscription)
    → s.queue ≡ []
    → 0 < limit
    → (drain_end (pos limit) (enqueue msg s)).0 ≡ msg ∷ []
unfolding drain_end enqueue
taken_one limit msg s fresh h = rw (fresh, drain_count-one limit h) refl

pull_end-known :
    (limit : ℕ) (key : String) (em : EventManager) (s : Subscription)
    → lookup key em.subs ≡ some s
    → pull_end limit key em
      ≡ some ((drain_end (pos limit) s).0, with_sub key (drain_end (pos limit) s).1 em)
unfolding pull_end
pull_end-known limit key em s found = rw (pull_end, found) refl

-- A client that creates a PullPoint and then pulls gets the event that was emitted in between, and
-- no other, whatever subscriptions there are and whatever the limit of its pull.
pub create_subscription-Receives :
    (w : World) (body pull : Text) (now : ℕ) (uid topic key : String) (on : Bool)
    (em : EventManager)
    → get_request_action body ≡ codes "CreatePullPointSubscription"
    → (em' : EventManager) × (pull_end
          (message_limit pull)
          w.random_id
          (emit now uid topic key on (handle_events_service w body em).0)
        ≡ some
            ((record { time = now; topic = topic; source = uid; key = key; value = on }) ∷ [], em'))
unfolding emit
create_subscription-Receives w body pull now uid topic key on em creates =
    let msg : Notification = record {
      time = now;
      topic = topic;
      source = uid;
      key = key;
      value = on;
    } in
    let (s, found, fresh) = created_sub w body em creates in
    let there =
      lookup-map_values (enqueue msg) w.random_id (handle_events_service w body em).0.subs
      ∙ rw (found) refl in
    (
      with_sub w.random_id (drain_end (pos (message_limit pull)) (enqueue msg s)).1
          (emit now uid topic key on (handle_events_service w body em).0),
      pull_end-known (message_limit pull) w.random_id
            (emit now uid topic key on (handle_events_service w body em).0) (enqueue msg s) there
          ∙ ap
              (λ (l : List Notification). some (
                l,
                with_sub w.random_id (drain_end (pos (message_limit pull)) (enqueue msg s)).1
                    (emit now uid topic key on (handle_events_service w body em).0),
              ))
              (taken_one (message_limit pull) msg s fresh (message_limit_positive pull)),
    )

evict-lookup :
    (now : ℕ) (key : String) (m : List (String × Subscription)) (s : Subscription)
    → lookup key m ≡ some s
    → now ≤ s.terminate_at
    → lookup key (evict now m) ≡ some s
unfolding lookup evict
evict-lookup now key [] s h k = cc
evict-lookup now key ((id, v) ∷ m) s h k = elim (Bool-cases (id == key)) [
  | inl same ↦
      let e : v ≡ s = cc (rw same at h) in
      let stays : ltb s.terminate_at now ≡ false = ground arith in
      rw (evict, lookup, e, stays, same) refl
  | inr other ↦ elim (Bool-cases (ltb v.terminate_at now)) [
    | inl old ↦ rw (evict, old) (evict-lookup now key m s (rw other at h) k)
    | inr young ↦ rw (evict, young, lookup, other) (evict-lookup now key m s (rw other at h) k)
  ]
]

in_time : (now d later : ℕ) → d < 2 ^ 63 → later ≤ now + d → later ≤ instant now (d % u64)
in_time now d later h k =
    let small : d % u64 ≡ d = omega arith in
    let fits : ltb (d % u64) (2 ^ 63) ≡ true = ground arith in rw (fits, small) k

-- A subscription that is renewed is there, with its messages, whenever the janitor comes within the
-- time that it was renewed for, if that fits a duration.
pub renew-Survives :
    (w : World) (wait : ℕ) (path body id : Text) (em : EventManager) (key : String)
    (s : Subscription) (later : ℕ)
    → subscription_id path ≡ some id
    → find_sub id em.subs ≡ some (key, s)
    → get_request_action body ≡ codes "Renew"
    → term_seconds w body (codes "TerminationTime") * second < 2 ^ 63
    → later ≤ w.now + term_seconds w body (codes "TerminationTime") * second
    → (s' : Subscription) × (lookup key
          (janitor_tick later (handle_subscription w wait path body em).0).subs
        ≡ some s')
      × (s'.queue ≡ s.queue)
unfolding janitor_tick on_subscription
renew-Survives w wait path body id em key s later at_path known renews fits due =
    let until : ℕ = instant w.now (seconds_long (term_seconds w body (codes "TerminationTime"))) in
    (
      record s { terminate_at = until },
      rw
          (
            handle_subscription_known w wait path body em id key s at_path known,
            on_subscription,
            renews,
          )
          (evict-lookup later key (insert key (record s { terminate_at = until }) em.subs)
            (record s { terminate_at = until })
            (lookup-insert key key (record s { terminate_at = until }) em.subs
              ∙ rw (beq_refl key) refl)
            (in_time w.now (term_seconds w body (codes "TerminationTime") * second) later fits
              due)),
      refl,
    )
