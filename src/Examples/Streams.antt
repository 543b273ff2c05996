-- ===== src/Examples/Streams.antt =====
-- Runs of pkg/rtmpserver: a subscriber, the bridge, and publishers that come and go.
use nanit_onvif.Prelude.{
  ◌≡◌, refl, pos, Bool, true, false, Option, some, none, List, [], ◌∷◌, ◌++◌, arith,
}
use nanit_onvif.Rtmp.Broadcaster.{
  Packet, Link, at_packet, fresh_link, Choice, deliver, pass_on, write_packet, run,
}
use nanit_onvif.Rtmp.Broadcaster.Delivery.{
  Counted, sent_to, awaited, headers_of, packets_of, offers, nothing,
}
use nanit_onvif.Rtmp.Broadcaster.Received.{run-received}
use nanit_onvif.Rtmp.Bridge.{
  RtmpHandler, new_rtmp_handler, get_new_publisher, get_new_subscriber, close_publisher, Bytes,
  Codec, AvPacket, h264_decoder_config, h264, new_bridge_state, bridge_all,
}
use nanit_onvif.Rtmp.Bridge.Publishing.{close_publisher-older}
use nanit_onvif.Rtmp.Bridge.Registration.{IsOrdered, bridge_all-IsOrdered}

abbrev config : Packet
config = record { type = 3; payload = 1 ∷ [] }

abbrev frame : Packet
frame = record { type = 1; payload = 2 ∷ [] }

abbrev choices : List Choice
choices =
    deliver frame (config ∷ [])
    ∷ pass_on
    ∷ write_packet
    ∷ pass_on
    ∷ deliver frame (config ∷ [])
    ∷ []

abbrev reached : Link
reached = record {
  sub = record {
    initialized = true;
    pkt_c = frame ∷ [];
    written = config ∷ [];
    closed = false;
    dropped = 0;
  };
  position = at_packet frame;
}

reaches : run choices fresh_link ≡ some reached
unfolding run
reaches = refl

run-received_example :
    (xs : List Packet) × (sent_to reached.sub ++ awaited reached.position
      ≡ headers_of (offers choices nothing) ++ xs)
    × Counted xs (packets_of (offers choices nothing)) reached.sub.dropped
run-received_example = run-received choices reached reaches refl

abbrev no_codec : Bytes → Option Codec
no_codec b = none

abbrev one_nalu : Bytes → List Bytes
one_nalu b = b ∷ []

abbrev registers : Bytes → Bytes → Bytes → Bool
registers sps pps aac = true

abbrev setup : AvPacket
setup = record {
  type = h264_decoder_config;
  v_seq_hdr = [];
  a_seq_hdr = [];
  payload = [];
  codec = some (record { sps = (1 ∷ []) ∷ []; pps = (2 ∷ []) ∷ [] });
  time = pos 0;
  c_time = pos 0;
}

abbrev picture : AvPacket
picture = record setup { type = h264; payload = 9 ∷ [] }

bridge_all-IsOrdered_example :
    IsOrdered registers false
      (bridge_all no_codec one_nalu registers (picture ∷ setup ∷ picture ∷ []) new_bridge_state).0
bridge_all-IsOrdered_example =
    bridge_all-IsOrdered registers no_codec one_nalu (picture ∷ setup ∷ picture ∷ [])

abbrev one_publisher : RtmpHandler
one_publisher = (get_new_publisher "cot" new_rtmp_handler).1

close_publisher-older_example :
    (get_new_subscriber "cot" (close_publisher "cot" 0 (get_new_publisher "cot" one_publisher).1)).0
    ≡ some (one_publisher.subscribers_made, (get_new_publisher "cot" one_publisher).0.0)
unfolding get_new_publisher new_rtmp_handler
close_publisher-older_example = close_publisher-older one_publisher "cot" 0 (omega arith)
