-- ===== src/Rtsp/Streams/Keyframes.antt =====
-- pkg/rtspserver/server.go: the keyframe of a baby is built from the last access unit with an IDR.
pub mod Latest
use nanit_onvif.Prelude.{
  ℕ, suc, zero, ◌+◌, ◌-◌, ◌*◌, ◌%◌, ◌<◌, ◌≤◌, Bool, true, false, ◌&&◌, ◌||◌, Option, none, some,
  List, [], ◌∷◌, ◌++◌, map, if◌then◌else◌, get_elem?, length, length-append, eqb, eqb_iff, ltb,
  Bool-cases, Option-cases, ◌≡◌, ◌≢◌, ◌↔◌, ◌⊎◌, refl, sym, subst, ap, ◌∙◌, All, inl, inr, arith,
  String, String_eq, ◌==◌, beq_refl, Eq, lookup, insert, delete, lookup-insert, lookup-delete,
}
use nanit_onvif.Rtsp.Streams.{
  Bytes, Media, video, audio, Call, write_packet, close_stream, StreamEntry, RtspServer,
  new_rtsp_server, close, update_entry, Answers, new_entry, evict, register_stream,
  unregister_begin, close_begin, remove_at, close_next, is_idr, contains_idr, annex_b_start_code,
  unit, unit_if, units, build_annex_b_keyframe, size_if, sizes, keyframe_size, keep_keyframe,
  write_calls, send, write_entry, on_entry, write_h264, write_aac, get_keyframe, offered, non_empty,
  entry_of, Step, register, unregister, close_all, close_one, keep, write, step, run,
}
use nanit_onvif.Rtsp.Streams.Ownership.{length-update}

length-unit_if : (n : Bytes) → length (unit_if n) ≡ size_if n
length-unit_if [] = refl
length-unit_if (b ∷ bs) = ground arith

length-units : (ns : List Bytes) → length (units ns) ≡ sizes ns
unfolding units sizes
length-units [] = refl
length-units (n ∷ ns) =
    omega (
      arith,
      length-append (unit n) (units ns),
      length-append annex_b_start_code n,
      length-units ns,
    )

-- The buffer of a keyframe has just the capacity that it is made with.
pub length-build_annex_b_keyframe :
    (sps pps : Bytes) (nalus : List Bytes)
    → length (build_annex_b_keyframe sps pps nalus) ≡ keyframe_size sps pps nalus
unfolding build_annex_b_keyframe keyframe_size
length-build_annex_b_keyframe sps pps nalus = omega (
  arith,
  length-append (unit_if sps) (unit_if pps ++ units nalus),
  length-append (unit_if pps) (units nalus),
  length-unit_if sps,
  length-unit_if pps,
  length-units nalus,
)

-- A call of `WriteH264`, with what the encoder made of it.
pub record Write : Type 0 where
  pub baby_uid : String
  pub nalus : List Bytes
  pub time : ℕ
  pub packets : Option (List ℕ)

unfoldable pub write_all : List Write → RtspServer → RtspServer
write_all [] s = s
write_all (w ∷ ws) s = write_all ws (write_h264 w.baby_uid w.nalus w.time w.packets s)

-- The last access unit with an IDR that is written for a baby.
unfoldable pub last_idr : String → List Write → Option (List Bytes)
last_idr uid [] = none
last_idr uid (w ∷ ws) = elim (last_idr uid ws) [
  | none ↦ if w.baby_uid == uid && contains_idr w.nalus then some w.nalus else none
  | some nalus ↦ some nalus
]

abbrev pub keyframe_from : Bytes → Bytes → Option (List Bytes) → Option Bytes → Option Bytes
keyframe_from sps pps none old = old
keyframe_from sps pps (some nalus) old = some (build_annex_b_keyframe sps pps nalus)

get-update_self :
    (f : StreamEntry → StreamEntry) (i : ℕ) (es : List StreamEntry) {e : StreamEntry}
    → get_elem? es i ≡ some e
    → get_elem? (update_entry i f es) i ≡ some (f e)
unfolding update_entry
get-update_self f i [] g = cc
get-update_self f zero (x ∷ es) g = cc
get-update_self f (suc i) (x ∷ es) g = get-update_self f i es g

get-update_ne :
    (f : StreamEntry → StreamEntry) (i j : ℕ) (es : List StreamEntry)
    → i ≢ j
    → get_elem? (update_entry i f es) j ≡ get_elem? es j
unfolding update_entry
get-update_ne f i j [] h = refl
get-update_ne f zero zero (x ∷ es) h = absurd (h refl)
get-update_ne f zero (suc j) (x ∷ es) h = refl
get-update_ne f (suc i) zero (x ∷ es) h = refl
get-update_ne f (suc i) (suc j) (x ∷ es) h = get-update_ne f i j es (λ e. h (ap suc e))

-- What the table says of a baby: its entry, that no other baby has it, the parameter sets and the
-- keyframe of the entry.
pub record Has (uid : String) (i : ℕ) (sps pps : Bytes) (kf : Option Bytes) (s : RtspServer)
    : Type 0 where
  pub here : lookup uid s.streams ≡ some i
  pub alone : (v : String) → lookup v s.streams ≡ some i → v ≡ uid
  pub entry : StreamEntry
  pub is_entry : get_elem? s.entries i ≡ some entry
  pub same_sps : entry.sps ≡ sps
  pub same_pps : entry.pps ≡ pps
  pub keyframe : entry.last_keyframe ≡ kf

written_fields :
    (nalus : List Bytes) (time : ℕ) (packets : Option (List ℕ)) (e : StreamEntry)
    → ((write_entry video nalus time packets e).sps ≡ e.sps)
      × ((write_entry video nalus time packets e).pps ≡ e.pps)
      × ((write_entry video nalus time packets e).last_keyframe ≡ (
          if contains_idr nalus
          then some (build_annex_b_keyframe e.sps e.pps nalus)
          else e.last_keyframe))
unfolding write_entry send keep_keyframe
written_fields nalus time none e = ground arith
written_fields nalus time (some ps) e = ground arith

write_h264-found :
    (w : Write) (i : ℕ) (s : RtspServer)
    → lookup w.baby_uid s.streams ≡ some i
    → write_h264 w.baby_uid w.nalus w.time w.packets s
      ≡ record s { entries = update_entry i (write_entry video w.nalus w.time w.packets) s.entries }
unfolding write_h264 on_entry
write_h264-found w i s h = simp (on_entry, h)

write_h264-missing :
    (w : Write) (s : RtspServer)
    → lookup w.baby_uid s.streams ≡ none
    → write_h264 w.baby_uid w.nalus w.time w.packets s ≡ s
unfolding write_h264 on_entry
write_h264-missing w s h = simp (on_entry, h)

module _ (uid : String) (i : ℕ) (sps pps : Bytes) where
  new_keyframe :
      (b : Bool) (nalus : List Bytes) (kf : Option Bytes)
      → (if b then some (build_annex_b_keyframe sps pps nalus) else kf)
        ≡ keyframe_from sps pps (if true && b then some nalus else none) kf
  new_keyframe true nalus kf = refl
  new_keyframe false nalus kf = refl

  write-Has :
      (w : Write) (kf : Option Bytes) (s : RtspServer)
      → Has uid i sps pps kf s
      → Has uid i sps pps
          (keyframe_from sps pps
            (if w.baby_uid == uid && contains_idr w.nalus then some w.nalus else none)
            kf)
          (write_h264 w.baby_uid w.nalus w.time w.packets s)
  write-Has w kf s h = elim (Bool-cases (w.baby_uid == uid)) [
    | inl same ↦
        let found : lookup w.baby_uid s.streams ≡ some i =
          ap (λ u. lookup u s.streams) ((String_eq.beq_iff w.baby_uid uid).0 same) ∙ h.here in
        let (f1, f2, f3) = written_fields w.nalus w.time w.packets h.entry in
        subst (Has uid i sps pps _) (sym (write_h264-found w i s found)) (record {
          here = h.here;
          alone = h.alone;
          entry = write_entry video w.nalus w.time w.packets h.entry;
          is_entry =
              get-update_self (write_entry video w.nalus w.time w.packets) i s.entries h.is_entry;
          same_sps = f1 ∙ h.same_sps;
          same_pps = f2 ∙ h.same_pps;
          keyframe =
              f3
              ∙ rw (h.same_sps, h.same_pps, h.keyframe, same)
                  (new_keyframe (contains_idr w.nalus) w.nalus kf);
        })
    | inr other ↦
        subst
          (λ o.
            Has uid i sps pps (keyframe_from sps pps o kf)
              (write_h264 w.baby_uid w.nalus w.time w.packets s))
          (sym (ap (λ (b : Bool). if b && contains_idr w.nalus then some w.nalus else none) other))
          (elim (Option-cases (lookup w.baby_uid s.streams)) [
            | inl missing ↦ subst (Has uid i sps pps kf) (sym (write_h264-missing w s missing)) h
            | inr (j, found) ↦
                let apart : j ≢ i =
                  λ e. cc (other, beq_refl uid, h.alone w.baby_uid (found ∙ ap some e)) in
                subst (Has uid i sps pps kf) (sym (write_h264-found w j s found)) (record {
                  here = h.here;
                  alone = h.alone;
                  entry = h.entry;
                  is_entry =
                      get-update_ne (write_entry video w.nalus w.time w.packets) j i s.entries apart
                      ∙ h.is_entry;
                  same_sps = h.same_sps;
                  same_pps = h.same_pps;
                  keyframe = h.keyframe;
                })
          ])
  ]

  pub write_all-Has :
      (ws : List Write) (kf : Option Bytes) (s : RtspServer)
      → Has uid i sps pps kf s
      → Has uid i sps pps (keyframe_from sps pps (last_idr uid ws) kf) (write_all ws s)
  unfolding write_all last_idr
  write_all-Has [] kf s h = h
  write_all-Has (w ∷ ws) kf s h =
      subst (λ k. Has uid i sps pps k (write_all (w ∷ ws) s))
        (later (last_idr uid ws)
          (if w.baby_uid == uid && contains_idr w.nalus then some w.nalus else none))
        (write_all-Has ws _ _ (write-Has w kf s h))
    where
      later :
          (o n : Option (List Bytes))
          → keyframe_from sps pps o (keyframe_from sps pps n kf)
            ≡ keyframe_from sps pps (elim o [ none ↦ n | some v ↦ some v ]) kf
      later none n = refl
      later (some v) n = refl
