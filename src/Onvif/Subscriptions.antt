-- ===== src/Onvif/Subscriptions.antt =====
-- pkg/onvif/events.go: the requests of the event service and of a subscription. A request is read by
-- the functions of Soap; the clock, the random id and the arithmetic on floats are parameters.
pub mod Requests
pub mod Lifetimes
use nanit_onvif.Prelude.{
  ℕ, ◌+◌, ◌-◌, ◌*◌, ◌^◌, ◌%◌, pos, Bool, true, false, ◌&&◌, ◌||◌, Option, none, some, String, List,
  [], ◌∷◌, leb, ltb, eqb, if◌then◌else◌, lookup, insert, delete, String_eq, Text, codes, eqb_text,
}
use nanit_onvif.Onvif.Events.{EventManager, Subscription, Notification, drain_begin, drain_end}
use nanit_onvif.Onvif.Soap.{behind, find_tag_value, get_request_action}
use nanit_onvif.Onvif.Durations.{digits, is_space, value, is_empty, second, u64, parse_iso_duration}

-- What a request meets: the time, 8 random bytes in hexadecimal, the seconds that a text stands for
-- as a duration, and the whole seconds of a duration.
pub record World : Type 0 where
  pub now : ℕ
  pub random_id : String
  pub float : Text → ℕ
  pub whole_seconds : ℕ → ℕ

pub data Response : Type 0 where
  created : String → ℕ → Response
  properties : Response
  capabilities : Response
  pulling : ℕ → Bool → Response
  renewed : ℕ → Response
  unsubscribed : Response
  synchronized : Response
  not_found : Response
  not_implemented : Response

-- `time.Duration(seconds) * time.Second`, and the instant so much later, or earlier where it is
-- negative.
abbrev pub seconds_long : ℕ → ℕ
seconds_long n = n * second % u64

abbrev pub instant : ℕ → ℕ → ℕ
instant now d = if ltb d (2 ^ 63) then now + d else now - (u64 - d)

-- `termSec`: the duration of a tag, or 600 seconds.
unfoldable pub term_seconds : World → Text → Text → ℕ
term_seconds w body tag =
    let s : Text = find_tag_value body tag in
    if is_empty s
    then 600
    else elim (parse_iso_duration w.float s) [ none ↦ 600 | some d ↦ w.whole_seconds d ]

-- `createSubscription`
unfoldable pub create_subscription : World → ℕ → EventManager → EventManager
create_subscription w ttl em = record em {
  subs =
      insert w.random_id
        (record { id = w.random_id; terminate_at = instant w.now ttl; queue = []; waiters = [] })
        em.subs;
}

unfoldable pub handle_events_service : World → Text → EventManager → EventManager × Response
handle_events_service w body em =
    let action : Text = get_request_action body in
    if eqb_text action (codes "CreatePullPointSubscription")
    then (let ttl : ℕ = seconds_long (term_seconds w body (codes "InitialTerminationTime")) in
        (create_subscription w ttl em, created w.random_id (instant w.now ttl)))
    else (if eqb_text action (codes "GetEventProperties")
        then (em, properties)
        else (if eqb_text action (codes "GetServiceCapabilities")
            then (em, capabilities)
            else (em, not_implemented)))

-- `[a-f0-9]`
abbrev pub is_hex : ℕ → Bool
is_hex c = (leb b'a' c && leb c b'f') || (leb b'0' c && leb c b'9')

-- `([a-f0-9]+)/?$`
unfoldable pub id_of : Text → Option Text
id_of [] = some []
id_of (c ∷ cs) =
    let rest = id_of cs in
    if is_hex c
    then elim rest [ none ↦ none | some t ↦ some (c ∷ t) ]
    else (if eqb c b'/' && is_empty cs then some [] else none)

-- `subscriptionPathRX`
unfoldable pub subscription_id : Text → Option Text
unfolding id_of
subscription_id path = elim (behind (codes "/onvif/events/subscription/") path) [
  | none ↦ none
  | some t ↦ elim (id_of t) [ none ↦ none | some id ↦ if is_empty id then none else some id ]
]

-- The key of the map that is spelled like a text, with its subscription.
unfoldable pub find_sub : Text → List (String × Subscription) → Option (String × Subscription)
find_sub id [] = none
find_sub id ((k, s) ∷ m) =
    let rest = find_sub id m in if eqb_text (codes k) id then some (k, s) else rest

-- `fmt.Sscanf(s, "%d", &n)` with n = 0, as far as n is positive: spaces, a sign, digits.
unfoldable pub skip_space : Text → Text
skip_space [] = []
skip_space (c ∷ cs) =
    let rest = skip_space cs in if eqb c 10 then c ∷ cs else (if is_space c then rest else c ∷ cs)

abbrev pub in_int64 : ℕ → ℕ
in_int64 n = if ltb n (2 ^ 63) then n else 0

unfoldable pub scan_positive : Text → ℕ
unfolding skip_space digits
scan_positive s = elim (skip_space s) [
  | [] ↦ 0
  | c ∷ cs ↦ if eqb c b'+' then in_int64 (value (digits cs)) else in_int64 (value (digits (c ∷ cs)))
]

-- The limit of a pull: the number of the tag where that is positive, else 100.
unfoldable pub message_limit : Text → ℕ
message_limit body =
    let s : Text = find_tag_value body (codes "MessageLimit") in
    let n : ℕ = scan_positive s in if ltb 0 n then n else 100

abbrev pub positive_part : ℕ → ℕ
positive_part d = if ltb d (2 ^ 63) then d else 0

-- The time that a pull waits at most, 0 where it is not positive.
unfoldable pub pull_timeout : World → Text → ℕ
pull_timeout w body =
    let s : Text = find_tag_value body (codes "Timeout") in
    if is_empty s
    then 60 * second
    else elim (parse_iso_duration w.float s) [ none ↦ 60 * second | some d ↦ positive_part d ]

abbrev pub with_sub : String → Subscription → EventManager → EventManager
with_sub key s em = record em { subs = insert key s em.subs }

-- The operations of a subscription; PullMessages up to the wait of its `drain`, on channel `wait`.
unfoldable pub on_subscription :
    World → ℕ → Text → String → Subscription → EventManager → EventManager × Response
on_subscription w wait body key sub em =
    let action : Text = get_request_action body in
    if eqb_text action (codes "PullMessages")
    then (let waiting : Subscription × Bool = drain_begin wait (pull_timeout w body) sub in
        (with_sub key waiting.0 em, pulling (message_limit body) waiting.1))
    else (if eqb_text action (codes "Renew")
        then (let until : ℕ =
              instant w.now (seconds_long (term_seconds w body (codes "TerminationTime"))) in
            (with_sub key (record sub { terminate_at = until }) em, renewed until))
        else (if eqb_text action (codes "Unsubscribe")
            then (record em { subs = delete key em.subs }, unsubscribed)
            else (if eqb_text action (codes "SetSynchronizationPoint")
                then (em, synchronized)
                else (em, not_implemented))))

unfoldable pub handle_subscription :
    World → ℕ → Text → Text → EventManager → EventManager × Response
handle_subscription w wait path body em = elim (subscription_id path) [
  | none ↦ (em, not_found)
  | some id ↦ elim (find_sub id em.subs) [
    | none ↦ (em, not_found)
    | some (key, sub) ↦ on_subscription w wait body key sub em
  ]
]

-- The rest of PullMessages, behind the wait, where the subscription is still there.
unfoldable pub pull_end : ℕ → String → EventManager → Option (List Notification × EventManager)
pull_end limit key em = elim (lookup key em.subs) [
  | none ↦ none
  | some sub ↦
      let taken : List Notification × Subscription = drain_end (pos limit) sub in
      some (taken.0, with_sub key taken.1 em)
]
