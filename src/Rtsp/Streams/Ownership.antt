-- ===== src/Rtsp/Streams/Ownership.antt =====
-- pkg/rtspserver/server.go: who holds an entry.
pub mod Tables
pub mod Steps
use nanit_onvif.Prelude.{
  ℕ, suc, zero, ◌+◌, ◌-◌, ◌*◌, ◌%◌, ◌<◌, ◌≤◌, Bool, true, false, ◌&&◌, ◌||◌, Option, none, some,
  List, [], ◌∷◌, ◌++◌, map, if◌then◌else◌, get_elem?, length, length-append, eqb, eqb_iff, ltb,
  Bool-cases, Option-cases, ◌≡◌, ◌≢◌, ◌↔◌, ◌⊎◌, refl, sym, ap, ◌∙◌, inl, inr, arith, String,
  String_eq, ◌==◌, beq_refl, Eq, lookup, insert, delete, lookup-insert, lookup-delete,
}
use nanit_onvif.Rtsp.Streams.{
  Bytes, Media, video, audio, Call, write_packet, close_stream, StreamEntry, RtspServer,
  new_rtsp_server, close, update_entry, Answers, new_entry, evict, register_stream,
  unregister_begin, close_begin, remove_at, close_next, is_idr, contains_idr, annex_b_start_code,
  unit, unit_if, units, build_annex_b_keyframe, size_if, sizes, keyframe_size, keep_keyframe,
  write_calls, send, write_entry, on_entry, write_h264, write_aac, get_keyframe, offered, Step,
  register, unregister, close_all, close_one, keep, write, step, run,
}
use nanit_onvif.Rtsp.Streams.Ownership.Tables.{
  one_if, holds, waits, UniqueKeys, holds-delete, holds-insert, holds-some, holds-lookup,
  UniqueKeys-delete, UniqueKeys-insert, waits-remove_at, waits-get, waits-values,
}

unfoldable pub closed_at : ℕ → List StreamEntry → ℕ
closed_at i [] = 0
closed_at zero (e ∷ es) = one_if e.closed
closed_at (suc i) (e ∷ es) = closed_at i es

abbrev pub owners : ℕ → RtspServer → ℕ
owners i s = holds i s.streams + waits i s.closing + closed_at i s.entries

-- Every entry that was made is in the table once, or waits for its `close`, or is closed.
abbrev pub IsOwned : RtspServer → Type 0
IsOwned s = ((i : ℕ) → owners i s ≡ one_if (ltb i (length s.entries))) × UniqueKeys s.streams

pub closed_at-same :
    (f : StreamEntry → StreamEntry)
    → ((e : StreamEntry) → (f e).closed ≡ e.closed)
    → (i j : ℕ) (es : List StreamEntry) → closed_at j (update_entry i f es) ≡ closed_at j es
unfolding closed_at update_entry
closed_at-same f k i j [] = refl
closed_at-same f k zero zero (e ∷ es) = ap one_if (k e)
closed_at-same f k zero (suc j) (e ∷ es) = refl
closed_at-same f k (suc i) zero (e ∷ es) = refl
closed_at-same f k (suc i) (suc j) (e ∷ es) = closed_at-same f k i j es

close_closed : (e : StreamEntry) → (close e).closed ≡ true
unfolding close
close_closed e = ground arith

closed_at-close :
    (i j : ℕ) (es : List StreamEntry)
    → i < length es
    → closed_at j (update_entry i close es) ≡ (if eqb i j then 1 else closed_at j es)
unfolding closed_at update_entry
closed_at-close i j [] h = absurd (omega arith)
closed_at-close zero zero (e ∷ es) h = ap one_if (close_closed e)
closed_at-close zero (suc j) (e ∷ es) h = ground arith
closed_at-close (suc i) zero (e ∷ es) h = ground arith
closed_at-close (suc i) (suc j) (e ∷ es) h =
    let same : eqb (suc i) (suc j) ≡ eqb i j = ground arith in
    rw same (closed_at-close i j es (omega arith))

pub length-update :
    (f : StreamEntry → StreamEntry) (i : ℕ) (es : List StreamEntry)
    → length (update_entry i f es) ≡ length es
unfolding update_entry
length-update f i [] = refl
length-update f zero (e ∷ es) = refl
length-update f (suc i) (e ∷ es) = ap suc (length-update f i es)

pub closed_at-snoc :
    (j : ℕ) (es : List StreamEntry) (e : StreamEntry)
    → e.closed ≡ false
    → closed_at j (es ++ e ∷ []) ≡ closed_at j es
unfolding closed_at
closed_at-snoc zero [] e h = ap one_if h
closed_at-snoc (suc j) [] e h = refl
closed_at-snoc zero (x ∷ es) e h = refl
closed_at-snoc (suc j) (x ∷ es) e h = closed_at-snoc j es e h

one_if-le : (b : Bool) → one_if b ≤ 1
one_if-le true = omega arith
one_if-le false = omega arith

pub ltb-suc : (j n : ℕ) → one_if (ltb j (n + 1)) ≡ one_if (ltb j n) + one_if (eqb n j)
ltb-suc j n = ground arith

pub holds-nil : (j : ℕ) → holds j [] ≡ 0
unfolding holds
holds-nil j = refl

pub waits-cons : (j i : ℕ) (l : List ℕ) → waits j (i ∷ l) ≡ one_if (eqb i j) + waits j l
unfolding waits
waits-cons j i l = refl

in_range : (i n k : ℕ) → k ≡ one_if (ltb i n) → 0 < k → i < n
in_range i n k h pos = ground arith

held_open :
    (i j : ℕ) (s : RtspServer)
    → i ≡ j
    → ((i : ℕ) → owners i s ≡ one_if (ltb i (length s.entries)))
    → 0 < holds i s.streams + waits i s.closing
    → closed_at j s.entries ≡ 0
held_open i j s e owned h = rw (← e) (omega (arith, owned i, one_if-le (ltb i (length s.entries))))

-- An entry that something holds is closed by nobody yet, so that its `close` moves it.
pub closed_at-held :
    (i j : ℕ) (s : RtspServer)
    → IsOwned s
    → 0 < holds i s.streams + waits i s.closing
    → closed_at j (update_entry i close s.entries) ≡ closed_at j s.entries + one_if (eqb i j)
closed_at-held i j s (owned, unique) h =
    let moved =
      closed_at-close i j s.entries
        (in_range i (length s.entries) (owners i s) (owned i) (omega arith)) in
    elim (Bool-cases (eqb i j)) [
      | inl same ↦
          let e : i ≡ j = (eqb_iff i j).0 same in
          rw same (omega (arith, rw same at moved, held_open i j s e owned h))
      | inr other ↦ rw other (omega (arith, rw other at moved))
    ]
