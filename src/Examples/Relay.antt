-- ===== src/Examples/Relay.antt =====
-- Runs of pkg/rtspserver.
use nanit_onvif.Prelude.{
  ℕ, ◌≡◌, ◌⊎◌, true, false, refl, some, none, String, List, [], ◌∷◌, get_elem?,
}
use nanit_onvif.Rtsp.Streams.{
  Bytes, video, Answers, StreamEntry, new_rtsp_server, new_entry, write_packet, close_stream,
  register_stream, get_keyframe, offered, Step, register, unregister, close_one, write, run,
}
use nanit_onvif.Rtsp.Streams.Offering.{offered-IsOpen, run-KeepsTrack}
use nanit_onvif.Rtsp.Streams.Writing.{IsEnded, run-WritesBeforeClose}
use nanit_onvif.Rtsp.Streams.Keyframes.{Write, write_all, last_idr, keyframe_from}
use nanit_onvif.Rtsp.Streams.Keyframes.Latest.{get_keyframe-last_idr}

abbrev all_well : Answers
all_well = record {
  makes_video = true;
  parses_config = true;
  makes_audio = true;
  initializes = true;
}

abbrev sps : Bytes
sps = 103 ∷ 66 ∷ []

abbrev pps : Bytes
pps = 104 ∷ 206 ∷ []

-- A stream is written to, taken out of the table, written to by a writer that still has it, and
-- closed; another stays.
abbrev steps : List Step
steps =
    register "b1" sps pps [] all_well
    ∷ register "b2" sps pps [] all_well
    ∷ write 1 video 90 (some (7 ∷ []))
    ∷ unregister "b2"
    ∷ write 1 video 180 (some (8 ∷ []))
    ∷ close_one 0
    ∷ write 1 video 270 (some (9 ∷ []))
    ∷ []

abbrev closed_entry : StreamEntry
closed_entry = record (new_entry sps pps false) {
  closed = true;
  calls = close_stream ∷ write_packet video 180 8 ∷ write_packet video 90 7 ∷ [];
}

offered-IsOpen_example :
    ((e : StreamEntry) × (get_elem? (run steps new_rtsp_server).entries 0 ≡ some e)
      × (e.closed ≡ false))
    × ((v : String) → offered v (run steps new_rtsp_server) ≡ some 0 → v ≡ "b1")
unfolding offered run
offered-IsOpen_example = offered-IsOpen steps "b1" 0 refl

run-KeepsTrack_example :
    (true ≡ true)
    ⊎ (((n : ℕ) × (get_elem? (run steps new_rtsp_server).closing n ≡ some 1))
        ⊎ ((uid : String) × (offered uid (run steps new_rtsp_server) ≡ some 1)))
unfolding run
run-KeepsTrack_example = run-KeepsTrack steps 1 closed_entry refl

run-WritesBeforeClose_example : IsEnded closed_entry.closed closed_entry.calls
unfolding run
run-WritesBeforeClose_example = run-WritesBeforeClose steps 1 closed_entry refl

-- An access unit with an IDR for each of two babies, then one without.
abbrev writes : List Write
writes =
    (record { baby_uid = "b3"; nalus = (101 ∷ 1 ∷ []) ∷ []; time = 0; packets = none })
    ∷ (record { baby_uid = "b1"; nalus = (101 ∷ 2 ∷ []) ∷ []; time = 0; packets = none })
    ∷ (record { baby_uid = "b3"; nalus = (65 ∷ 3 ∷ []) ∷ []; time = 3000; packets = none })
    ∷ []

get_keyframe-last_idr_example :
    get_keyframe "b3"
      (write_all writes (register_stream "b3" sps pps [] all_well (run steps new_rtsp_server)).0)
    ≡ keyframe_from sps pps (last_idr "b3" writes) none
unfolding register_stream run
get_keyframe-last_idr_example = get_keyframe-last_idr steps "b3" sps pps [] all_well writes refl
