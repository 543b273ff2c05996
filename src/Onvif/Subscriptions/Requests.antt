-- ===== src/Onvif/Subscriptions/Requests.antt =====
-- pkg/onvif/events.go: what requests do to the subscriptions.
use nanit_onvif.Prelude.{
  ℕ, ◌<◌, ◌≤◌, pos, some, String, List, ◌++◌, if◌then◌else◌, lookup, String_eq, Text, codes, ◌≡◌,
  ◌≢◌, refl, ap, ◌∙◌, inl, inr, Option-cases, lookup-insert, arith, beq_refl, length, take,
  length-take, drop, take-append-drop, zero, suc, ltb,
}
use nanit_onvif.Onvif.Events.{EventManager, Subscription, Notification, drain_end, drain_count}
use nanit_onvif.Onvif.Soap.{find_tag_value}
use nanit_onvif.Onvif.Subscriptions.{
  World, subscription_id, find_sub, message_limit, with_sub, on_subscription, handle_subscription,
  pull_end, scan_positive,
}

pub message_limit_positive : (body : Text) → 0 < message_limit body
unfolding message_limit
message_limit_positive body = ground arith

-- What is left alone: all but the subscription of a key.
abbrev pub SameOthers : String → EventManager → EventManager → Type 0
SameOthers key em em' =
    ((other : String) → other ≢ key → lookup other em'.subs ≡ lookup other em.subs)
    × (em'.hold_duration ≡ em.hold_duration)
    × (em'.clears ≡ em.clears)
    × (em'.last_motion ≡ em.last_motion)
    × (em'.last_sound ≡ em.last_sound)
    × (em'.timers ≡ em.timers)
    × (em'.next_timer ≡ em.next_timer)

pub handle_subscription_known :
    (w : World) (wait : ℕ) (path body : Text) (em : EventManager) (id : Text) (key : String)
    (s : Subscription)
    → subscription_id path ≡ some id
    → find_sub id em.subs ≡ some (key, s)
    → handle_subscription w wait path body em ≡ on_subscription w wait body key s em
unfolding handle_subscription
handle_subscription_known w wait path body em id key s found known =
    rw (handle_subscription, found, known) refl

-- The limit of a request by the number that its tag holds, and how many messages a pull then takes.
abbrev pub wanted : ℕ → ℕ
wanted zero = 100
wanted (suc n) = suc n

abbrev pub lesser : ℕ → ℕ → ℕ
lesser m n = if ltb m n then m else n

abbrev pub limit_in : Text → ℕ
limit_in body = wanted (scan_positive (find_tag_value body (codes "MessageLimit")))

message_limit-eq-limit_in : (body : Text) → message_limit body ≡ limit_in body
unfolding message_limit
message_limit-eq-limit_in body =
    by_value (scan_positive (find_tag_value body (codes "MessageLimit")))
  where
    by_value : (n : ℕ) → (if ltb 0 n then n else 100) ≡ wanted n
    by_value zero = refl
    by_value (suc n) = ground arith

length-taken :
    {A : Type 0} (limit : ℕ) (xs : List A)
    → 0 < limit
    → length (take (drain_count (pos limit) (length xs)) xs) ≡ lesser limit (length xs)
length-taken limit xs h =
    omega (arith, length-take (drain_count (pos limit) (length xs)) xs, counted limit (length xs) h)
  where
    counted :
        (limit n : ℕ)
        → 0 < limit
        → (drain_count (pos limit) n ≡ lesser limit n) × (lesser limit n ≤ n)
    counted limit n h = ground arith

-- A pull takes the oldest messages of a subscription, in their order, and leaves the others: as many
-- as its request asks for, 100 where that names no positive number, or all where there are fewer.
pub pull_end-Takes :
    (body : Text) (key : String) (em em' : EventManager) (msgs : List Notification)
    → pull_end (message_limit body) key em ≡ some (msgs, em')
    → (s s' : Subscription) × (lookup key em.subs ≡ some s)
      × (lookup key em'.subs ≡ some s')
      × (length msgs ≡ lesser (limit_in body) (length s.queue))
      × (msgs ++ s'.queue ≡ s.queue)
      × (s'.terminate_at ≡ s.terminate_at)
unfolding pull_end drain_end
pull_end-Takes body key em em' msgs h = elim (Option-cases (lookup key em.subs)) [
  | inl missing ↦ cc (rw (pull_end, missing) at h)
  | inr (s, found) ↦
      let n : ℕ = drain_count (pos (message_limit body)) (length s.queue) in
      let e = rw (pull_end, found) at h in
      let e0 : msgs ≡ take n s.queue = cc e in
      let e1 : em' ≡ with_sub key (record s { queue = drop n s.queue }) em = cc e in
      (
        s,
        record s { queue = drop n s.queue },
        found,
        rw e1 (
            lookup-insert key key (record s { queue = drop n s.queue }) em.subs
            ∙ rw (beq_refl key) refl),
        ap length e0
            ∙ length-taken (message_limit body) s.queue (message_limit_positive body)
            ∙ ap (λ m. lesser m (length s.queue)) (message_limit-eq-limit_in body),
        rw e0 (take-append-drop n s.queue),
        refl,
      )
]
