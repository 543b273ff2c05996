-- ===== src/Rtsp/Streams.antt =====
-- pkg/rtspserver/server.go: the streams by baby. The entries are a list, and a pointer to one is its
-- index; the lock of the table and the lock of an entry make separate steps.
pub mod Ownership
pub mod Offering
pub mod Writing
pub mod Keyframes
use nanit_onvif.Prelude.{
  ℕ, suc, zero, ◌+◌, ◌%◌, Bool, true, false, ◌&&◌, ◌||◌, Option, none, some, List, [], ◌∷◌, ◌++◌,
  map, if◌then◌else◌, get_elem?, length, eqb, ltb, String, String_eq, lookup, insert, delete,
}

abbrev pub Bytes : Type 0
Bytes = List ℕ

pub data Media : Type 0 where
  video audio : Media

-- What an entry calls on its stream: a packet with its time, or the end.
pub data Call : Type 0 where
  write_packet : Media → ℕ → ℕ → Call
  close_stream : Call

-- `streamEntry`, with the calls on its stream, the last first.
pub record StreamEntry : Type 0 where
  pub sps : Bytes
  pub pps : Bytes
  pub has_audio : Bool
  pub closed : Bool
  pub last_keyframe : Option Bytes
  pub calls : List Call

-- `RTSPServer`: the entries ever made, the table, and the entries that are out of the table with
-- their `close` still to come.
pub record RtspServer : Type 0 where
  pub entries : List StreamEntry
  pub streams : List (String × ℕ)
  pub closing : List ℕ

abbrev pub new_rtsp_server : RtspServer
new_rtsp_server = record { entries = []; streams = []; closing = [] }

unfoldable pub close : StreamEntry → StreamEntry
close e = if e.closed then e else record e { closed = true; calls = close_stream ∷ e.calls }

unfoldable pub update_entry : ℕ → (StreamEntry → StreamEntry) → List StreamEntry → List StreamEntry
update_entry i f [] = []
update_entry zero f (e ∷ es) = f e ∷ es
update_entry (suc i) f (e ∷ es) = e ∷ update_entry i f es

-- What the libraries answer to `RegisterStream`: whether they make the video encoder, parse the AAC
-- configuration, make the audio encoder and initialize the stream.
pub record Answers : Type 0 where
  pub makes_video : Bool
  pub parses_config : Bool
  pub makes_audio : Bool
  pub initializes : Bool

abbrev pub new_entry : Bytes → Bytes → Bool → StreamEntry
new_entry sps pps has_audio = record {
  sps = sps;
  pps = pps;
  has_audio = has_audio;
  closed = false;
  last_keyframe = none;
  calls = [];
}

-- The existing stream is closed first.
unfoldable pub evict : String → RtspServer → RtspServer
unfolding close update_entry lookup delete
evict uid s = elim (lookup uid s.streams) [
  | none ↦ s
  | some i ↦ record s { entries = update_entry i close s.entries; streams = delete uid s.streams }
]

-- `RegisterStream`, under the lock of the table; it returns whether there was no error.
unfoldable pub register_stream :
    String → Bytes → Bytes → Bytes → Answers → RtspServer → RtspServer × Bool
unfolding evict insert
register_stream uid sps pps aac_config a s0 =
    let s : RtspServer = evict uid s0 in
    let has_audio : Bool = ltb 0 (length aac_config) && (a.parses_config && a.makes_audio) in
    if a.makes_video && a.initializes
    then (
      record s {
        entries = s.entries ++ new_entry sps pps has_audio ∷ [];
        streams = insert uid (length s.entries) s.streams;
      },
      true,
    )
    else (s, false)

-- `UnregisterStream`: under the lock the entry leaves the table, then it is closed.
unfoldable pub unregister_begin : String → RtspServer → RtspServer
unfolding lookup delete
unregister_begin uid s = elim (lookup uid s.streams) [
  | none ↦ s
  | some i ↦ record s { streams = delete uid s.streams; closing = i ∷ s.closing }
]

-- `Close` takes all entries out of the table; behind their `close` it closes the library's server.
unfoldable pub close_begin : RtspServer → RtspServer
close_begin s = record s { streams = []; closing = map (λ p. p.1) s.streams ++ s.closing }

abbrev pub remove_at : ℕ → List ℕ → List ℕ
remove_at n [] = []
remove_at zero (i ∷ is) = is
remove_at (suc n) (i ∷ is) = i ∷ remove_at n is

-- The `close` of an entry that is out of the table.
unfoldable pub close_next : ℕ → RtspServer → RtspServer
unfolding close update_entry
close_next n s = elim (get_elem? s.closing n) [
  | none ↦ s
  | some i ↦ record s { entries = update_entry i close s.entries; closing = remove_at n s.closing }
]

abbrev pub is_idr : Bytes → Bool
is_idr [] = false
is_idr (b ∷ bs) = eqb (b % 32) 5

unfoldable pub contains_idr : List Bytes → Bool
contains_idr [] = false
contains_idr (n ∷ ns) = is_idr n || contains_idr ns

abbrev pub annex_b_start_code : Bytes
annex_b_start_code = 0 ∷ 0 ∷ 0 ∷ 1 ∷ []

abbrev pub unit : Bytes → Bytes
unit n = annex_b_start_code ++ n

abbrev pub unit_if : Bytes → Bytes
unit_if [] = []
unit_if (b ∷ bs) = unit (b ∷ bs)

unfoldable pub units : List Bytes → Bytes
units [] = []
units (n ∷ ns) = unit n ++ units ns

unfoldable pub build_annex_b_keyframe : Bytes → Bytes → List Bytes → Bytes
unfolding units
build_annex_b_keyframe sps pps nalus = unit_if sps ++ (unit_if pps ++ units nalus)

-- The capacity that `buildAnnexBKeyframe` gives its buffer.
abbrev size_if : Bytes → ℕ
size_if n = if ltb 0 (length n) then length annex_b_start_code + length n else 0

unfoldable pub sizes : List Bytes → ℕ
sizes [] = 0
sizes (n ∷ ns) = length annex_b_start_code + length n + sizes ns

unfoldable pub keyframe_size : Bytes → Bytes → List Bytes → ℕ
unfolding sizes
keyframe_size sps pps nalus = size_if sps + size_if pps + sizes nalus

-- `WriteH264` before the encoder: an access unit with an IDR is kept.
unfoldable pub keep_keyframe : List Bytes → StreamEntry → StreamEntry
unfolding contains_idr build_annex_b_keyframe
keep_keyframe nalus e =
    if contains_idr nalus
    then record e { last_keyframe = some (build_annex_b_keyframe e.sps e.pps nalus) }
    else e

unfoldable pub write_calls : Media → ℕ → List ℕ → List Call → List Call
write_calls m time [] cs = cs
write_calls m time (p ∷ ps) cs = write_calls m time ps (write_packet m time p ∷ cs)

-- Behind the encoder, under the lock of the entry: its packets, or none where it refused.
unfoldable pub send : Media → ℕ → Option (List ℕ) → StreamEntry → StreamEntry
unfolding write_calls
send m time none e = e
send m time (some packets) e =
    if e.closed then e else record e { calls = write_calls m time packets e.calls }

-- `WriteH264` and `WriteAAC` on an entry that was read from the table; `packets` and `time` are the
-- encoder's and the clock's.
unfoldable pub write_entry : Media → List Bytes → ℕ → Option (List ℕ) → StreamEntry → StreamEntry
unfolding keep_keyframe send
write_entry video nalus time packets e = send video time packets (keep_keyframe nalus e)
write_entry audio nalus time packets e = if e.has_audio then send audio time packets e else e

unfoldable pub on_entry : String → (StreamEntry → StreamEntry) → RtspServer → RtspServer
unfolding lookup update_entry
on_entry uid f s = elim (lookup uid s.streams) [
  | none ↦ s
  | some i ↦ record s { entries = update_entry i f s.entries }
]

unfoldable pub write_h264 : String → List Bytes → ℕ → Option (List ℕ) → RtspServer → RtspServer
unfolding on_entry write_entry
write_h264 uid nalus time packets = on_entry uid (write_entry video nalus time packets)

unfoldable pub write_aac : String → Bytes → ℕ → Option (List ℕ) → RtspServer → RtspServer
unfolding on_entry write_entry
write_aac uid au time packets = on_entry uid (write_entry audio (au ∷ []) time packets)

abbrev pub entry_of : String → RtspServer → Option StreamEntry
entry_of uid s = elim (lookup uid s.streams) [ none ↦ none | some i ↦ get_elem? s.entries i ]

abbrev pub non_empty : Bytes → Option Bytes
non_empty [] = none
non_empty (b ∷ bs) = some (b ∷ bs)

unfoldable pub get_keyframe : String → RtspServer → Option Bytes
unfolding lookup
get_keyframe uid s = elim (entry_of uid s) [
  | none ↦ none
  | some e ↦ elim e.last_keyframe [ none ↦ none | some kf ↦ non_empty kf ]
]

-- `OnDescribe` and `OnSetup`: the entry whose stream is offered, or none for "not found".
unfoldable pub offered : String → RtspServer → Option ℕ
unfolding lookup
offered uid s = lookup uid s.streams

-- What goroutines do, a writer in two steps at an entry that it once read from the table.
pub data Step : Type 0 where
  register : String → Bytes → Bytes → Bytes → Answers → Step
  unregister : String → Step
  close_all : Step
  close_one : ℕ → Step
  keep : ℕ → List Bytes → Step
  write : ℕ → Media → ℕ → Option (List ℕ) → Step

unfoldable pub step : Step → RtspServer → RtspServer
unfolding register_stream unregister_begin close_begin close_next keep_keyframe send update_entry
step (register uid sps pps aac a) s = (register_stream uid sps pps aac a s).0
step (unregister uid) s = unregister_begin uid s
step close_all s = close_begin s
step (close_one n) s = close_next n s
step (keep i nalus) s = record s { entries = update_entry i (keep_keyframe nalus) s.entries }
step (write i m time packets) s = record s {
  entries = update_entry i (send m time packets) s.entries;
}

unfoldable pub run : List Step → RtspServer → RtspServer
unfolding step
run [] s = s
run (c ∷ cs) s = run cs (step c s)
