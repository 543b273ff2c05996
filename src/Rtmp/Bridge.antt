-- ===== src/Rtmp/Bridge.antt =====
-- pkg/rtmpserver/server.go: the publishers by baby, and the bridge to the RTSP server.
pub mod Publishing
pub mod Registration
use nanit_onvif.Prelude.{
  ℕ, ℤ, suc, ◌+◌, Bool, true, false, not, ◌||◌, ◌&&◌, Option, none, some, String, List, [], ◌∷◌,
  ◌++◌, if◌then◌else◌, ltb, eqb, length, lookup, insert, delete, get_or, set, String_eq, ◌==◌,
}
use nanit_onvif.Rtmp.Broadcaster.{
  Broadcaster, new_broadcaster, new_subscriber, unsubscribe, close_subscribers,
}

-- The broadcasters by their number, which is their pointer's identity, with the subscribers that
-- have been made and closed.
pub record RtmpHandler : Type 0 where
  pub broadcasters_by_uid : List (String × ℕ)
  pub broadcasters : List Broadcaster
  pub subscribers_made : ℕ
  pub closed : List ℕ

unfoldable pub new_rtmp_handler : RtmpHandler
new_rtmp_handler = record {
  broadcasters_by_uid = [];
  broadcasters = [];
  subscribers_made = 0;
  closed = [];
}

-- `closeSubscribers` on the broadcaster with a number.
unfoldable pub close_subscribers_of : ℕ → RtmpHandler → RtmpHandler
unfolding close_subscribers
close_subscribers_of b h =
    let r = close_subscribers (get_or h.broadcasters b new_broadcaster) in
    record h { broadcasters = set h.broadcasters b r.0; closed = r.1 ++ h.closed }

-- The publisher, and the broadcaster that a goroutine is to close.
unfoldable pub get_new_publisher : String → RtmpHandler → (ℕ × Option ℕ) × RtmpHandler
get_new_publisher uid h =
    let b = length h.broadcasters in
    (
      (b, lookup uid h.broadcasters_by_uid),
      record h {
        broadcasters = h.broadcasters ++ new_broadcaster ∷ [];
        broadcasters_by_uid = insert uid b h.broadcasters_by_uid;
      },
    )

-- The subscriber and its broadcaster, for `unsubscribe`, or nil.
unfoldable pub get_new_subscriber : String → RtmpHandler → Option (ℕ × ℕ) × RtmpHandler
unfolding new_subscriber
get_new_subscriber uid h = elim (lookup uid h.broadcasters_by_uid) [
  | none ↦ (none, h)
  | some b ↦
      let sub = h.subscribers_made in
      (
        some (sub, b),
        record h {
          broadcasters =
              set h.broadcasters b (new_subscriber sub (get_or h.broadcasters b new_broadcaster));
          subscribers_made = suc sub;
        },
      )
]

unfoldable pub close_publisher : String → ℕ → RtmpHandler → RtmpHandler
unfolding close_subscribers_of
close_publisher uid b h =
    let by_uid : List (String × ℕ) = elim (lookup uid h.broadcasters_by_uid) [
      | none ↦ h.broadcasters_by_uid
      | some current ↦
          if eqb current b then delete uid h.broadcasters_by_uid else h.broadcasters_by_uid
    ] in
    close_subscribers_of b (record h { broadcasters_by_uid = by_uid })

abbrev pub Bytes : Type 0
Bytes = List ℕ

pub record RtspBridgeState : Type 0 where
  pub sps : Bytes
  pub pps : Bytes
  pub aac_config : Bytes
  pub registered : Bool

abbrev pub new_bridge_state : RtspBridgeState
new_bridge_state = record { sps = []; pps = []; aac_config = []; registered = false }

-- A codec has its parameter sets in maps, which a loop leaves after the first that it meets.
pub record Codec : Type 0 where
  pub sps : List Bytes
  pub pps : List Bytes

-- The packet types of the av package, as far as the bridge tells them apart.
pub data PacketType : Type 0 where
  h264_decoder_config aac_decoder_config h264 aac other_type : PacketType

pub record AvPacket : Type 0 where
  pub type : PacketType
  pub v_seq_hdr : Bytes
  pub a_seq_hdr : Bytes
  pub payload : Bytes
  pub codec : Option Codec
  pub time : ℤ
  pub c_time : ℤ

-- The calls of the RTSP server; a presentation time is the sum of the two given.
pub data Call : Type 0 where
  register_stream : Bytes → Bytes → Bytes → Call
  write_h264 : List Bytes → ℤ × ℤ → Call
  write_aac : Bytes → ℤ × ℤ → Call

abbrev pub or_data : Bytes → Bytes → Bytes
or_data [] d = d
or_data (x ∷ xs) d = x ∷ xs

abbrev pub first_of : List Bytes → Bytes
first_of [] = []
first_of (v ∷ vs) = v

abbrev pub is_empty {ℓ} : {A : Type ℓ} → List A → Bool
is_empty [] = true
is_empty (x ∷ xs) = false

-- `from_decoder_config` and `split_nalus` are of the h264 package, and `registers` says whether a
-- registration of the RTSP server succeeds.
module _ (from_decoder_config : Bytes → Option Codec) (split_nalus : Bytes → List Bytes)
    (registers : Bytes → Bytes → Bytes → Bool) where
  unfoldable pub register_rtsp_stream : RtspBridgeState → List Call × RtspBridgeState
  register_rtsp_stream s = (
    register_stream s.sps s.pps s.aac_config ∷ [],
    if registers s.sps s.pps s.aac_config then record s { registered = true } else s,
  )

  -- The codec of a decoder configuration: the packet's own, if it has parameter sets.
  unfoldable pub codec_of : AvPacket → Option Codec
  codec_of pkt =
      let contents = or_data pkt.v_seq_hdr pkt.payload in
      let parsed : Option Codec =
        if is_empty contents then none else from_decoder_config contents in
      elim pkt.codec [ none ↦ parsed | some c ↦ if is_empty c.sps then parsed else some c ]

  unfoldable pub configure_video : RtspBridgeState → Option Codec → List Call × RtspBridgeState
  unfolding register_rtsp_stream
  configure_video s none = ([], s)
  configure_video s (some codec) =
      if is_empty (first_of codec.sps) || is_empty (first_of codec.pps)
      then ([], s)
      else register_rtsp_stream (record s { sps = first_of codec.sps; pps = first_of codec.pps })

  unfoldable pub configure_audio : RtspBridgeState → Bytes → List Call × RtspBridgeState
  unfolding register_rtsp_stream
  configure_audio s config =
      let s' = record s { aac_config = config } in
      if is_empty config
      then ([], s)
      else if is_empty s.sps
      then ([], s')
      else register_rtsp_stream s'

  unfoldable pub bridge_to_rtsp : AvPacket → RtspBridgeState → List Call × RtspBridgeState
  unfolding codec_of configure_video configure_audio
  bridge_to_rtsp pkt s = elim pkt.type [
    | h264_decoder_config ↦ configure_video s (codec_of pkt)
    | aac_decoder_config ↦ configure_audio s (or_data pkt.a_seq_hdr pkt.payload)
    | h264 ↦
        let nalus = split_nalus pkt.payload in
        if not s.registered || is_empty nalus
        then ([], s)
        else (write_h264 nalus (pkt.time, pkt.c_time) ∷ [], s)
    | aac ↦
        if not s.registered then ([], s) else (write_aac pkt.payload (pkt.time, pkt.c_time) ∷ [], s)
    | other_type ↦ ([], s)
  ]

  -- The calls of a publisher's packets, one after another.
  unfoldable pub bridge_all : List AvPacket → RtspBridgeState → List Call × RtspBridgeState
  unfolding bridge_to_rtsp
  bridge_all [] s = ([], s)
  bridge_all (pkt ∷ pkts) s =
      let r = bridge_to_rtsp pkt s in let rest = bridge_all pkts r.1 in (r.0 ++ rest.0, rest.1)
