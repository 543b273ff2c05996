-- ===== src/Rtsp/Streams/Writing.antt =====
-- pkg/rtspserver/server.go: an entry ends its stream once, behind all packets.
use nanit_onvif.Prelude.{
  ℕ, suc, zero, Bool, true, false, ◌&&◌, Option, none, some, List, [], ◌∷◌, ◌++◌, get_elem?,
  Bool-cases, Option-cases, ◌≡◌, refl, All, inl, inr, String, String_eq, lookup,
}
use nanit_onvif.Rtsp.Streams.{
  Bytes, Media, Call, write_packet, close_stream, StreamEntry, RtspServer, new_rtsp_server, close,
  update_entry, Answers, evict, register_stream, unregister_begin, close_begin, close_next,
  contains_idr, keep_keyframe, write_calls, send, Step, register, unregister, close_all, close_one,
  keep, write, step, run,
}

abbrev pub IsWrite : Call → Type 0
IsWrite (write_packet m time p) = Unit
IsWrite close_stream = ⊥

-- Packets only while the entry is open; then one end, the last of all calls.
abbrev pub IsEnded : Bool → List Call → Type 0
IsEnded false calls = All IsWrite calls
IsEnded true [] = ⊥
IsEnded true (c ∷ cs) = (c ≡ close_stream) × All IsWrite cs

abbrev pub IsClean : StreamEntry → Type 0
IsClean e = IsEnded e.closed e.calls

close-IsClean : (e : StreamEntry) → IsClean e → IsClean (close e)
unfolding close
close-IsClean e h = elim (Bool-cases e.closed) [
  | inl shut ↦ simp (close, shut) (rw shut at h)
  | inr unclosed ↦ simp (close, unclosed) (refl, rw unclosed at h)
]

write_calls-IsWrite :
    (m : Media) (time : ℕ) (ps : List ℕ) (cs : List Call)
    → All IsWrite cs
    → All IsWrite (write_calls m time ps cs)
unfolding write_calls
write_calls-IsWrite m time [] cs h = h
write_calls-IsWrite m time (p ∷ ps) cs h =
    write_calls-IsWrite m time ps (write_packet m time p ∷ cs) (tt, h)

send-IsClean :
    (m : Media) (time : ℕ) (packets : Option (List ℕ)) (e : StreamEntry)
    → IsClean e
    → IsClean (send m time packets e)
unfolding send
send-IsClean m time none e h = h
send-IsClean m time (some ps) e h = elim (Bool-cases e.closed) [
  | inl shut ↦ simp (send, shut) (rw shut at h)
  | inr unclosed ↦ simp (send, unclosed) (write_calls-IsWrite m time ps e.calls (rw unclosed at h))
]

keep-IsClean : (nalus : List Bytes) (e : StreamEntry) → IsClean e → IsClean (keep_keyframe nalus e)
unfolding keep_keyframe
keep-IsClean nalus e h = elim (Bool-cases (contains_idr nalus)) [
  | inl idr ↦ simp (keep_keyframe, idr) h
  | inr plain ↦ simp (keep_keyframe, plain) h
]

module _ (P : StreamEntry → Type 0) where
  All-update :
      (f : StreamEntry → StreamEntry)
      → ((e : StreamEntry) → P e → P (f e))
      → (i : ℕ) (es : List StreamEntry) → All P es
      → All P (update_entry i f es)
  unfolding update_entry
  All-update f k i [] h = tt
  All-update f k zero (e ∷ es) h = (k e h.0, h.1)
  All-update f k (suc i) (e ∷ es) h = (h.0, All-update f k i es h.1)

  All-snoc : (es : List StreamEntry) (e : StreamEntry) → All P es → P e → All P (es ++ e ∷ [])
  All-snoc [] e h k = (k, tt)
  All-snoc (x ∷ es) e h k = (h.0, All-snoc es e h.1 k)

  All-get :
      (i : ℕ) (es : List StreamEntry) {e : StreamEntry} → All P es → get_elem? es i ≡ some e → P e
  All-get i [] h g = cc
  All-get zero (x ∷ es) {e} h g = let same : x ≡ e = cc in rw (← same) h.0
  All-get (suc i) (x ∷ es) h g = All-get i es h.1 g

evict-IsClean :
    (uid : String) (s : RtspServer) → All IsClean s.entries → All IsClean (evict uid s).entries
unfolding evict
evict-IsClean uid s h = elim (Option-cases (lookup uid s.streams)) [
  | inl missing ↦ rw (evict, missing) h
  | inr (i, found) ↦ rw (evict, found) (All-update IsClean close close-IsClean i s.entries h)
]

register_stream-IsClean :
    (uid : String) (sps pps aac : Bytes) (a : Answers) (s : RtspServer)
    → All IsClean s.entries
    → All IsClean (register_stream uid sps pps aac a s).0.entries
unfolding register_stream
register_stream-IsClean uid sps pps aac a s h = elim (Bool-cases (a.makes_video && a.initializes)) [
  | inl made ↦ rw (All, made) (All-snoc IsClean (evict uid s).entries _ (evict-IsClean uid s h) tt)
  | inr refused ↦ rw (All, refused) (evict-IsClean uid s h)
]

step-IsClean : (c : Step) (s : RtspServer) → All IsClean s.entries → All IsClean (step c s).entries
unfolding step register_stream unregister_begin close_begin close_next
step-IsClean (register uid sps pps aac a) s h = register_stream-IsClean uid sps pps aac a s h
step-IsClean (unregister uid) s h = elim (Option-cases (lookup uid s.streams)) [
  | inl missing ↦ rw (unregister_begin, missing) h
  | inr (i, found) ↦ rw (unregister_begin, found) h
]
step-IsClean close_all s h = h
step-IsClean (close_one n) s h = elim (Option-cases (get_elem? s.closing n)) [
  | inl missing ↦ rw (close_next, missing) h
  | inr (i, found) ↦ rw (close_next, found) (All-update IsClean close close-IsClean i s.entries h)
]
step-IsClean (keep i nalus) s h =
    All-update IsClean (keep_keyframe nalus) (keep-IsClean nalus) i s.entries h
step-IsClean (write i m time packets) s h =
    All-update IsClean (send m time packets) (send-IsClean m time packets) i s.entries h

run-IsClean :
    (cs : List Step) (s : RtspServer) → All IsClean s.entries → All IsClean (run cs s).entries
unfolding run
run-IsClean [] s h = h
run-IsClean (c ∷ cs) s h = run-IsClean cs (step c s) (step-IsClean c s h)

-- Whatever the order in which writers and those who close an entry take its lock, a stream that is
-- not closed has got packets only, and a closed one has been closed once, behind all its packets.
pub run-WritesBeforeClose :
    (cs : List Step) (i : ℕ) (e : StreamEntry)
    → get_elem? (run cs new_rtsp_server).entries i ≡ some e
    → IsEnded e.closed e.calls
run-WritesBeforeClose cs i e g =
    All-get IsClean i (run cs new_rtsp_server).entries (run-IsClean cs new_rtsp_server tt) g
