-- ===== src/Rtmp/Bridge/Registration.antt =====
-- No frame is written before a stream is registered, and none is registered without parameter sets.
use nanit_onvif.Prelude.{
  Bool, true, false, ◌||◌, Option, none, some, List, [], ◌∷◌, ◌++◌, ◌≡◌, refl, sym, subst, ◌∙◌, inl,
  inr, Bool-cases, arith,
}
use nanit_onvif.Rtmp.Bridge.{
  Bytes, RtspBridgeState, new_bridge_state, Codec, PacketType, h264_decoder_config,
  aac_decoder_config, h264, aac, other_type, AvPacket, Call, register_stream, write_h264, write_aac,
  or_data, first_of, is_empty, register_rtsp_stream, codec_of, configure_video, configure_audio,
  bridge_to_rtsp, bridge_all,
}

module _ (registers : Bytes → Bytes → Bytes → Bool) where
  -- Whether a stream has been registered after some calls.
  abbrev pub after : Bool → List Call → Bool
  after r [] = r
  after r (register_stream sps pps aac_config ∷ cs) = after (r || registers sps pps aac_config) cs
  after r (write_h264 nalus t ∷ cs) = after r cs
  after r (write_aac au t ∷ cs) = after r cs

  -- Each registration has parameter sets; each write follows one, and a video write has a frame.
  abbrev pub IsOrdered : Bool → List Call → Type 0
  IsOrdered r [] = Unit
  IsOrdered r (register_stream sps pps aac_config ∷ cs) =
      (is_empty sps ≡ false)
      × (is_empty pps ≡ false)
      × IsOrdered (r || registers sps pps aac_config) cs
  IsOrdered r (write_h264 nalus t ∷ cs) = (r ≡ true) × (is_empty nalus ≡ false) × IsOrdered r cs
  IsOrdered r (write_aac au t ∷ cs) = (r ≡ true) × IsOrdered r cs

  append-IsOrdered :
      (cs ds : List Call) (r : Bool)
      → IsOrdered r cs
      → IsOrdered (after r cs) ds
      → IsOrdered r (cs ++ ds)
  append-IsOrdered [] ds r h k = k
  append-IsOrdered (register_stream sps pps a ∷ cs) ds r (p, q, h) k =
      (p, q, append-IsOrdered cs ds (r || registers sps pps a) h k)
  append-IsOrdered (write_h264 nalus t ∷ cs) ds r (p, q, h) k = (p, q, append-IsOrdered cs ds r h k)
  append-IsOrdered (write_aac au t ∷ cs) ds r (p, h) k = (p, append-IsOrdered cs ds r h k)

  after-append : (cs ds : List Call) (r : Bool) → after r (cs ++ ds) ≡ after (after r cs) ds
  after-append [] ds r = refl
  after-append (register_stream sps pps a ∷ cs) ds r = after-append cs ds (r || registers sps pps a)
  after-append (write_h264 nalus t ∷ cs) ds r = after-append cs ds r
  after-append (write_aac au t ∷ cs) ds r = after-append cs ds r

  module _ (from_decoder_config : Bytes → Option Codec) (split_nalus : Bytes → List Bytes) where
    -- The parameter sets come together.
    abbrev Steps : RtspBridgeState → List Call × RtspBridgeState → Type 0
    Steps s r =
        IsOrdered s.registered r.0
        × (r.1.registered ≡ after s.registered r.0)
        × (is_empty r.1.sps ≡ is_empty r.1.pps)

    register-Steps :
        (s : RtspBridgeState)
        → is_empty s.sps ≡ false
        → is_empty s.pps ≡ false
        → Steps s (register_rtsp_stream from_decoder_config split_nalus registers s)
    unfolding register_rtsp_stream
    register-Steps s p q = elim (Bool-cases (registers s.sps s.pps s.aac_config)) [
      | inl done ↦ rw (done) ((p, q, tt), ground (arith, done), p ∙ sym q)
      | inr failed ↦ rw (failed) ((p, q, tt), ground (arith, failed), p ∙ sym q)
    ]

    configure_video-Steps :
        (s : RtspBridgeState) (c : Option Codec)
        → is_empty s.sps ≡ is_empty s.pps
        → Steps s (configure_video from_decoder_config split_nalus registers s c)
    unfolding configure_video
    configure_video-Steps s none e = (tt, refl, e)
    configure_video-Steps s (some c) e = elim (Bool-cases (is_empty (first_of c.sps))) [
      | inl no_sps ↦ rw (configure_video, no_sps) (tt, refl, e)
      | inr has_sps ↦ elim (Bool-cases (is_empty (first_of c.pps))) [
        | inl no_pps ↦ rw (configure_video, has_sps, no_pps) (tt, refl, e)
        | inr has_pps ↦
            rw (configure_video, has_sps, has_pps)
              (register-Steps (record s { sps = first_of c.sps; pps = first_of c.pps }) has_sps
                has_pps)
      ]
    ]

    configure_audio-Steps :
        (s : RtspBridgeState) (config : Bytes)
        → is_empty s.sps ≡ is_empty s.pps
        → Steps s (configure_audio from_decoder_config split_nalus registers s config)
    unfolding configure_audio
    configure_audio-Steps s [] e = (tt, refl, e)
    configure_audio-Steps s (b ∷ bs) e = elim (Bool-cases (is_empty s.sps)) [
      | inl no_sps ↦ rw (configure_audio, no_sps) (tt, refl, e)
      | inr has_sps ↦
          rw (configure_audio, has_sps)
            (register-Steps (record s { aac_config = b ∷ bs }) has_sps (sym e ∙ has_sps))
    ]

    video-Steps :
        (pkt : AvPacket) (s : RtspBridgeState)
        → pkt.type ≡ h264
        → is_empty s.sps ≡ is_empty s.pps
        → Steps s (bridge_to_rtsp from_decoder_config split_nalus registers pkt s)
    unfolding bridge_to_rtsp
    video-Steps pkt s video e = elim (Bool-cases s.registered) [
      | inr unregistered ↦ rw (bridge_to_rtsp, video, unregistered) (tt, refl, e)
      | inl registered ↦ elim (Bool-cases (is_empty (split_nalus pkt.payload))) [
        | inl no_nalus ↦ rw (bridge_to_rtsp, video, registered, no_nalus) (tt, refl, e)
        | inr nalus ↦ rw (bridge_to_rtsp, video, registered, nalus) ((refl, nalus, tt), refl, e)
      ]
    ]

    audio-Steps :
        (pkt : AvPacket) (s : RtspBridgeState)
        → pkt.type ≡ aac
        → is_empty s.sps ≡ is_empty s.pps
        → Steps s (bridge_to_rtsp from_decoder_config split_nalus registers pkt s)
    unfolding bridge_to_rtsp
    audio-Steps pkt s audio e = elim (Bool-cases s.registered) [
      | inr unregistered ↦ rw (bridge_to_rtsp, audio, unregistered) (tt, refl, e)
      | inl registered ↦ rw (bridge_to_rtsp, audio, registered) ((refl, tt), refl, e)
    ]

    bridge_to_rtsp-Steps :
        (pkt : AvPacket) (s : RtspBridgeState) (t : PacketType)
        → pkt.type ≡ t
        → is_empty s.sps ≡ is_empty s.pps
        → Steps s (bridge_to_rtsp from_decoder_config split_nalus registers pkt s)
    unfolding bridge_to_rtsp
    bridge_to_rtsp-Steps pkt s h264_decoder_config is e =
        rw (bridge_to_rtsp, is)
          (configure_video-Steps s (codec_of from_decoder_config split_nalus registers pkt) e)
    bridge_to_rtsp-Steps pkt s aac_decoder_config is e =
        rw (bridge_to_rtsp, is) (configure_audio-Steps s (or_data pkt.a_seq_hdr pkt.payload) e)
    bridge_to_rtsp-Steps pkt s h264 is e = video-Steps pkt s is e
    bridge_to_rtsp-Steps pkt s aac is e = audio-Steps pkt s is e
    bridge_to_rtsp-Steps pkt s other_type is e = rw (bridge_to_rtsp, is) (tt, refl, e)

    bridge_all-IsOrdered_from :
        (pkts : List AvPacket) (s : RtspBridgeState)
        → is_empty s.sps ≡ is_empty s.pps
        → IsOrdered s.registered (bridge_all from_decoder_config split_nalus registers pkts s).0
    unfolding bridge_all
    bridge_all-IsOrdered_from [] s e = tt
    bridge_all-IsOrdered_from (pkt ∷ pkts) s e =
        let r = bridge_to_rtsp from_decoder_config split_nalus registers pkt s in
        let st = bridge_to_rtsp-Steps pkt s pkt.type refl e in
        append-IsOrdered r.0 _ s.registered st.0 (
          subst (λ f. IsOrdered f (bridge_all from_decoder_config split_nalus registers pkts r.1).0)
            st.1 (bridge_all-IsOrdered_from pkts r.1 st.2))

    -- Of the calls that a publisher's packets make, whatever the packets, none writes before a
    -- registration has succeeded, every registration has an SPS and a PPS that are not empty, and
    -- every video write has a NAL unit.
    pub bridge_all-IsOrdered :
        (pkts : List AvPacket)
        → IsOrdered false
            (bridge_all from_decoder_config split_nalus registers pkts new_bridge_state).0
    bridge_all-IsOrdered pkts = bridge_all-IsOrdered_from pkts new_bridge_state refl
