-- ===== src/Rtsp/Streams/Ownership/Steps.antt =====
-- pkg/rtspserver/server.go: every operation leaves each entry with one holder.
use nanit_onvif.Prelude.{
  ℕ, false, ◌&&◌, Option, none, some, List, [], ◌∷◌, ◌++◌, get_elem?, length, length-append, ltb,
  Bool-cases, Option-cases, ◌≡◌, refl, ◌∙◌, inl, inr, arith, String, String_eq, beq_refl, lookup,
  insert, lookup-delete,
}
use nanit_onvif.Rtsp.Streams.{
  Bytes, Media, StreamEntry, RtspServer, new_rtsp_server, close, update_entry, Answers, evict,
  register_stream, unregister_begin, close_begin, close_next, keep_keyframe, send, Step, register,
  unregister, close_all, close_one, keep, write, step, run,
}
use nanit_onvif.Rtsp.Streams.Ownership.Tables.{
  one_if, holds, waits, holds-delete, holds-insert, holds-some, UniqueKeys-delete,
  UniqueKeys-insert, waits-remove_at, waits-get, waits-values,
}
use nanit_onvif.Rtsp.Streams.Ownership.{
  IsOwned, closed_at, closed_at-same, length-update, closed_at-snoc, holds-nil, waits-cons, ltb-suc,
  closed_at-held,
}

evict-IsOwned : (uid : String) (s : RtspServer) → IsOwned s → IsOwned (evict uid s)
unfolding evict
evict-IsOwned uid s o = elim (Option-cases (lookup uid s.streams)) [
  | inl missing ↦ rw (evict, missing) o
  | inr (i, found) ↦
      rw (evict, found)
        (
          λ j. rw (length-update close i s.entries) (
              omega (
                arith,
                o.0 j,
                holds-delete uid i j s.streams o.1 found,
                closed_at-held i j s o (omega (arith, holds-some uid i s.streams found)),
              )),
          UniqueKeys-delete uid s.streams o.1,
        )
]

evict-missing : (uid : String) (s : RtspServer) → lookup uid (evict uid s).streams ≡ none
unfolding evict
evict-missing uid s = elim (Option-cases (lookup uid s.streams)) [
  | inl missing ↦ rw (evict, missing) missing
  | inr (i, found) ↦ rw (evict, found) (lookup-delete uid uid s.streams ∙ rw (beq_refl uid) refl)
]

added-IsOwned :
    (uid : String) (e : StreamEntry) (s : RtspServer)
    → lookup uid s.streams ≡ none
    → e.closed ≡ false
    → IsOwned s
    → IsOwned (record s {
      entries = s.entries ++ e ∷ [];
      streams = insert uid (length s.entries) s.streams;
    })
added-IsOwned uid e s missing open_entry (owned, unique) = (
  λ j. rw (length-append s.entries (e ∷ [])) (
      omega (
        arith,
        owned j,
        holds-insert uid (length s.entries) j s.streams missing,
        closed_at-snoc j s.entries e open_entry,
        ltb-suc j (length s.entries),
      )),
  UniqueKeys-insert uid (length s.entries) s.streams missing unique,
)

register_stream-IsOwned :
    (uid : String) (sps pps aac : Bytes) (a : Answers) (s : RtspServer)
    → IsOwned s
    → IsOwned (register_stream uid sps pps aac a s).0
unfolding register_stream
register_stream-IsOwned uid sps pps aac a s o = elim (Bool-cases (a.makes_video && a.initializes)) [
  | inl made ↦
      rw (made)
        (added-IsOwned uid _ (evict uid s) (evict-missing uid s) refl (evict-IsOwned uid s o))
  | inr refused ↦ rw (refused) (evict-IsOwned uid s o)
]

same_closed-IsOwned :
    (f : StreamEntry → StreamEntry) (i : ℕ) (s : RtspServer)
    → ((e : StreamEntry) → (f e).closed ≡ e.closed)
    → IsOwned s
    → IsOwned (record s { entries = update_entry i f s.entries })
same_closed-IsOwned f i s k (owned, unique) = (
  λ j. rw (length-update f i s.entries) (omega (arith, owned j, closed_at-same f k i j s.entries)),
  unique,
)

keep-closed : (nalus : List Bytes) (e : StreamEntry) → (keep_keyframe nalus e).closed ≡ e.closed
unfolding keep_keyframe
keep-closed nalus e = ground arith

send-closed :
    (m : Media) (time : ℕ) (packets : Option (List ℕ)) (e : StreamEntry)
    → (send m time packets e).closed ≡ e.closed
unfolding send
send-closed m time none e = refl
send-closed m time (some ps) e = ground arith

step-IsOwned : (c : Step) (s : RtspServer) → IsOwned s → IsOwned (step c s)
unfolding step unregister_begin close_begin close_next
step-IsOwned (register uid sps pps aac a) s o = register_stream-IsOwned uid sps pps aac a s o
step-IsOwned (unregister uid) s o = elim (Option-cases (lookup uid s.streams)) [
  | inl missing ↦ rw (unregister_begin, missing) o
  | inr (i, found) ↦
      rw (unregister_begin, found)
        (
          λ j.
              omega
                (arith, o.0 j, waits-cons j i s.closing, holds-delete uid i j s.streams o.1 found),
          UniqueKeys-delete uid s.streams o.1,
        )
]
step-IsOwned close_all s o =
    (λ j. omega (arith, o.0 j, waits-values j s.streams s.closing, holds-nil j), tt)
step-IsOwned (close_one n) s o = elim (Option-cases (get_elem? s.closing n)) [
  | inl missing ↦ rw (close_next, missing) o
  | inr (i, found) ↦
      rw (close_next, found)
        (
          λ j. rw (length-update close i s.entries) (
              omega (
                arith,
                o.0 j,
                waits-remove_at n i j s.closing found,
                closed_at-held i j s o (omega (arith, waits-get n i s.closing found)),
              )),
          o.1,
        )
]
step-IsOwned (keep i nalus) s o =
    same_closed-IsOwned (keep_keyframe nalus) i s (keep-closed nalus) o
step-IsOwned (write i m time packets) s o =
    same_closed-IsOwned (send m time packets) i s (send-closed m time packets) o

pub run-IsOwned : (cs : List Step) (s : RtspServer) → IsOwned s → IsOwned (run cs s)
unfolding run
run-IsOwned [] s o = o
run-IsOwned (c ∷ cs) s o = run-IsOwned cs (step c s) (step-IsOwned c s o)

none_below : (i : ℕ) → 0 ≡ one_if (ltb i 0)
none_below i = ground arith

new-IsOwned : IsOwned new_rtsp_server
unfolding holds waits closed_at
new-IsOwned = (λ i. none_below i, tt)

-- The state after any steps of a new server.
pub reached-IsOwned : (cs : List Step) → IsOwned (run cs new_rtsp_server)
reached-IsOwned cs = run-IsOwned cs new_rtsp_server new-IsOwned
