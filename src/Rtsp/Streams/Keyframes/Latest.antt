-- ===== src/Rtsp/Streams/Keyframes/Latest.antt =====
-- pkg/rtspserver/server.go: what GetKeyframe gives after a registration and writes.
use nanit_onvif.Prelude.{
  ℕ, ◌<◌, true, ◌&&◌, Option, none, some, List, [], ◌∷◌, ◌++◌, get_elem?, length, ltb, Bool-cases,
  Option-cases, ◌≡◌, refl, ◌∙◌, inl, inr, arith, String, String_eq, beq_refl, lookup, lookup-insert,
}
use nanit_onvif.Rtsp.Streams.{
  Bytes, StreamEntry, RtspServer, new_rtsp_server, Answers, new_entry, evict, register_stream,
  contains_idr, build_annex_b_keyframe, sizes, keyframe_size, get_keyframe, offered, non_empty,
  Step, register, step, run,
}
use nanit_onvif.Rtsp.Streams.Offering.{offered-IsOpen}
use nanit_onvif.Rtsp.Streams.Keyframes.{
  length-build_annex_b_keyframe, Write, write_all, last_idr, keyframe_from, Has, write_all-Has,
}

get-snoc : (es : List StreamEntry) (e : StreamEntry) → get_elem? (es ++ e ∷ []) (length es) ≡ some e
get-snoc [] e = refl
get-snoc (x ∷ es) e = get-snoc es e

run-snoc : (cs : List Step) (c : Step) (s : RtspServer) → run (cs ++ c ∷ []) s ≡ step c (run cs s)
unfolding run
run-snoc [] c s = refl
run-snoc (d ∷ cs) c s = run-snoc cs c (step d s)

registered :
    (uid : String) (sps pps aac : Bytes) (a : Answers) (s : RtspServer)
    → (register_stream uid sps pps aac a s).1 ≡ true
    → (i : ℕ) × (lookup uid (register_stream uid sps pps aac a s).0.streams ≡ some i)
      × ((e : StreamEntry) × (get_elem? (register_stream uid sps pps aac a s).0.entries i ≡ some e)
          × (e.sps ≡ sps)
          × (e.pps ≡ pps)
          × (e.last_keyframe ≡ none))
unfolding register_stream
registered uid sps pps aac a s ok = elim (Bool-cases (a.makes_video && a.initializes)) [
  | inl made ↦ rw made (
    length (evict uid s).entries,
    lookup-insert uid uid (length (evict uid s).entries) (evict uid s).streams
        ∙ rw (beq_refl uid) refl,
    (
      new_entry sps pps (ltb 0 (length aac) && (a.parses_config && a.makes_audio)),
      get-snoc (evict uid s).entries _,
      refl,
      refl,
      refl,
    ),
  )
  | inr refused ↦ cc (rw refused at ok)
]

units_some :
    (sps pps : Bytes) (nalus : List Bytes)
    → contains_idr nalus ≡ true
    → 0 < length (build_annex_b_keyframe sps pps nalus)
unfolding contains_idr keyframe_size sizes
units_some sps pps [] h = cc
units_some sps pps (n ∷ ns) h = omega (arith, length-build_annex_b_keyframe sps pps (n ∷ ns))

non_empty-some : (b : Bytes) → 0 < length b → non_empty b ≡ some b
non_empty-some [] h = absurd (omega arith)
non_empty-some (x ∷ b) h = refl

last_idr-contains_idr :
    (uid : String) (ws : List Write) (nalus : List Bytes)
    → last_idr uid ws ≡ some nalus
    → contains_idr nalus ≡ true
unfolding last_idr
last_idr-contains_idr uid [] nalus h = cc
last_idr-contains_idr uid (w ∷ ws) nalus h = elim (Option-cases (last_idr uid ws)) [
  | inr (later, e) ↦ last_idr-contains_idr uid ws nalus (e ∙ rw (last_idr, e) at h)
  | inl e ↦ elim (Bool-cases (contains_idr w.nalus)) [
    | inl idr ↦ ground (arith, rw (last_idr, e) at h)
    | inr plain ↦ ground (arith, rw (last_idr, e) at h)
  ]
]

get_keyframe-Has :
    (uid : String) (i : ℕ) (sps pps : Bytes) (o : Option (List Bytes)) (s : RtspServer)
    → ((nalus : List Bytes) → o ≡ some nalus → contains_idr nalus ≡ true)
    → Has uid i sps pps (keyframe_from sps pps o none) s
    → get_keyframe uid s ≡ keyframe_from sps pps o none
unfolding get_keyframe
get_keyframe-Has uid i sps pps none s k h = rw (get_keyframe, h.here, h.is_entry, h.keyframe) refl
get_keyframe-Has uid i sps pps (some nalus) s k h =
    rw (get_keyframe, h.here, h.is_entry, h.keyframe)
      (non_empty-some (build_annex_b_keyframe sps pps nalus)
        (units_some sps pps nalus (k nalus refl)))

-- Whatever has gone before, once a stream is registered for a baby and whatever is then written for
-- it and other babies, `GetKeyframe` gives the keyframe of the last access unit with an IDR that was
-- written for this baby, with the parameter sets of the registration, or nothing where there is none.
pub get_keyframe-last_idr :
    (cs : List Step) (uid : String) (sps pps aac : Bytes) (a : Answers) (ws : List Write)
    → (register_stream uid sps pps aac a (run cs new_rtsp_server)).1 ≡ true
    → get_keyframe uid (write_all ws (register_stream uid sps pps aac a (run cs new_rtsp_server)).0)
      ≡ keyframe_from sps pps (last_idr uid ws) none
unfolding step offered
get_keyframe-last_idr cs uid sps pps aac a ws ok =
    let s = run cs new_rtsp_server in
    let (i, found, (e, here, same_sps, same_pps, fresh)) =
      registered uid sps pps aac a (run cs new_rtsp_server) ok in
    let alone =
      rw (run-snoc cs (register uid sps pps aac a) new_rtsp_server) at
        (offered-IsOpen (cs ++ register uid sps pps aac a ∷ []) uid i) in
    get_keyframe-Has uid i sps pps (last_idr uid ws) _ (last_idr-contains_idr uid ws) (
      write_all-Has uid i sps pps ws none _ (record {
        here = found;
        alone = (alone found).1;
        entry = e;
        is_entry = here;
        same_sps = same_sps;
        same_pps = same_pps;
        keyframe = fresh;
      }))
