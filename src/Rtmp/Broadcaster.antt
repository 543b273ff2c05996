-- ===== src/Rtmp/Broadcaster.antt =====
-- pkg/rtmpserver/broadcaster.go: a publisher's packets, for its subscribers. A subscriber's channel
-- is a bounded queue, and what a `select` chooses is a choice of the schedule.
pub mod Delivery
pub mod Received
use nanit_onvif.Prelude.{
  ◌+◌, ◌%◌, ◌^◌, ℕ, suc, ◌+◌, Bool, true, false, not, Option, none, some, List, [], ◌∷◌, ◌++◌, map,
  if◌then◌else◌, ltb, eqb, length,
}

-- A packet, of which the broadcaster reads only the type.
pub record Packet : Type 0 where
  pub type : ℕ
  pub payload : List ℕ

abbrev pub queue_cap : ℕ
queue_cap = 64

-- `dropped` is a uint64. `written` is what the subscriber's own loop has taken from the queue and written to its client.
pub record Subscriber : Type 0 where
  pub initialized : Bool
  pub pkt_c : List Packet
  pub written : List Packet
  pub closed : Bool
  pub dropped : ℕ

abbrev pub fresh_subscriber : Subscriber
fresh_subscriber = record {
  initialized = false;
  pkt_c = [];
  written = [];
  closed = false;
  dropped = 0;
}

-- Where the publisher stands in `deliver`: outside, at a header packet, or at the packet itself.
pub data Position : Type 0 where
  outside : Position
  at_headers : List Packet → Packet → Position
  at_packet : Packet → Position

pub record Link : Type 0 where
  pub sub : Subscriber
  pub position : Position

abbrev pub fresh_link : Link
fresh_link = record { sub = fresh_subscriber; position = outside }

-- What happens next: the publisher enters `deliver` with a packet and the headers of its snapshot,
-- passes on what it stands at, finds the subscriber closed, or drops the packet; the subscriber
-- writes a packet, or is closed.
pub data Choice : Type 0 where
  deliver : Packet → List Packet → Choice
  pass_on find_done drop_packet write_packet signal_close : Choice

unfoldable pub has_room : Subscriber → Bool
has_room s = ltb (length s.pkt_c) queue_cap

unfoldable pub put : Packet → Subscriber → Subscriber
put pkt s = record s { pkt_c = s.pkt_c ++ pkt ∷ [] }

-- After the header packets, the packet.
unfoldable pub position_of : List Packet → Packet → Position
position_of [] pkt = at_packet pkt
position_of (h ∷ hs) pkt = at_headers (h ∷ hs) pkt

unfoldable pub enter : Packet → List Packet → Subscriber → Link
unfolding position_of
enter pkt headers s =
    if s.initialized
    then record { sub = s; position = at_packet pkt }
    else record { sub = record s { initialized = true }; position = position_of headers pkt }

unfoldable pub passed_on : Subscriber → Position → Option Link
unfolding put position_of
passed_on s outside = none
passed_on s (at_headers [] pkt) = none
passed_on s (at_headers (h ∷ hs) pkt) =
    if has_room s then some (record { sub = put h s; position = position_of hs pkt }) else none
passed_on s (at_packet pkt) =
    if has_room s then some (record { sub = put pkt s; position = outside }) else none

-- `drop_packet` is the default case: it is taken only where no other is ready.
unfoldable pub dropped_packet : Subscriber → Position → Option Link
unfolding has_room
dropped_packet s outside = none
dropped_packet s (at_headers hs pkt) = none
dropped_packet s (at_packet pkt) =
    if has_room s
    then none
    else if s.closed
    then none
    else some (record { sub = record s { dropped = (s.dropped + 1) % 2 ^ 64 }; position = outside })

unfoldable pub written_packet : Subscriber → Position → List Packet → Option Link
written_packet s p [] = none
written_packet s p (pkt ∷ rest) =
    some (record { sub = record s { pkt_c = rest; written = s.written ++ pkt ∷ [] }; position = p })

-- A step, where it can be taken.
unfoldable pub step : Choice → Link → Option Link
unfolding enter passed_on dropped_packet written_packet
step (deliver pkt headers) l = elim l.position [
  | outside ↦ some (enter pkt headers l.sub)
  | at_headers hs p ↦ none
  | at_packet p ↦ none
]
step pass_on l = passed_on l.sub l.position
step find_done l = elim l.position [
  | outside ↦ none
  | at_headers hs pkt ↦ if l.sub.closed then some (record l { position = outside }) else none
  | at_packet pkt ↦ if l.sub.closed then some (record l { position = outside }) else none
]
step drop_packet l = dropped_packet l.sub l.position
step write_packet l = written_packet l.sub l.position l.sub.pkt_c
step signal_close l = some (record l { sub = record l.sub { closed = true } })

unfoldable pub run : List Choice → Link → Option Link
unfolding step
run [] l = some l
run (c ∷ cs) l = elim (step c l) [ none ↦ none | some l' ↦ run cs l' ]

-- The broadcaster; its subscribers are numbered.
pub record Broadcaster : Type 0 where
  pub header_pkts : List Packet
  pub subscribers : List ℕ

unfoldable pub new_broadcaster : Broadcaster
new_broadcaster = record { header_pkts = []; subscribers = [] }

unfoldable pub new_subscriber : ℕ → Broadcaster → Broadcaster
new_subscriber sub b = record b { subscribers = sub ∷ b.subscribers }

unfoldable pub remove : ℕ → List ℕ → List ℕ
remove sub [] = []
remove sub (x ∷ xs) = let rest = remove sub xs in if eqb x sub then rest else x ∷ rest

-- The subscriber is closed as well.
unfoldable pub unsubscribe : ℕ → Broadcaster → Broadcaster
unfolding remove
unsubscribe sub b = record b { subscribers = remove sub b.subscribers }

-- The deliveries that a packet makes, each to a subscriber and with the headers so far.
unfoldable pub broadcast : Packet → Broadcaster → Broadcaster × List (ℕ × Choice)
broadcast pkt b =
    if ltb 2 pkt.type
    then (record b { header_pkts = b.header_pkts ++ pkt ∷ [] }, [])
    else (b, map (λ sub. (sub, deliver pkt b.header_pkts)) b.subscribers)

-- The subscribers that are closed.
unfoldable pub close_subscribers : Broadcaster → Broadcaster × List ℕ
close_subscribers b = (record b { subscribers = [] }, b.subscribers)
