-- ===== src/Rtsp/Streams/Offering.antt =====
-- pkg/rtspserver/server.go: which streams a client can get, and that each is closed in the end.
use nanit_onvif.Prelude.{
  ℕ, suc, zero, ◌+◌, ◌<◌, ◌≤◌, Bool, true, false, some, List, [], ◌∷◌, get_elem?, length, eqb,
  eqb_iff, ltb, Bool-cases, ◌≡◌, ◌⊎◌, refl, sym, ap, ◌∙◌, inl, inr, arith, String, String_eq, ◌==◌,
  lookup,
}
use nanit_onvif.Rtsp.Streams.{StreamEntry, new_rtsp_server, offered, Step, run}
use nanit_onvif.Rtsp.Streams.Ownership.Tables.{one_if, holds, waits, holds-some, holds-lookup}
use nanit_onvif.Rtsp.Streams.Ownership.{closed_at}
use nanit_onvif.Rtsp.Streams.Ownership.Steps.{reached-IsOwned}

find_entry :
    (i : ℕ) (es : List StreamEntry)
    → i < length es
    → (e : StreamEntry) × (get_elem? es i ≡ some e) × (closed_at i es ≡ one_if e.closed)
unfolding closed_at
find_entry i [] h = absurd (omega arith)
find_entry zero (e ∷ es) h = (e, refl, refl)
find_entry (suc i) (e ∷ es) h = find_entry i es (omega arith)

is_below : (i n k : ℕ) → k ≡ one_if (ltb i n) → 0 < k → i < n
is_below i n k h pos = ground arith

not_below : (i n : ℕ) → one_if (ltb i n) ≤ 1
not_below i n = ground arith

unset : (b : Bool) → one_if b ≡ 0 → b ≡ false
unset true h = absurd (omega arith)
unset false h = refl

held_once :
    (u v : String) (i : ℕ) (t : List (String × ℕ))
    → holds i t ≤ 1
    → lookup u t ≡ some i
    → lookup v t ≡ some i
    → v ≡ u
unfolding holds lookup
held_once u v i [] h p q = cc
held_once u v i ((k, w) ∷ t) h p q = elim (Bool-cases (k == u)) [
  | inl first ↦ elim (Bool-cases (k == v)) [
    | inl also ↦ sym ((String_eq.beq_iff k v).0 also) ∙ (String_eq.beq_iff k u).0 first
    | inr later ↦
        let e : w ≡ i = cc (rw first at p) in
        absurd (omega (arith, holds-some v i t (rw later at q), ap one_if ((eqb_iff w i).1 e)))
  ]
  | inr second ↦ elim (Bool-cases (k == v)) [
    | inl also ↦
        let e : w ≡ i = cc (rw also at q) in
        absurd (omega (arith, holds-some u i t (rw second at p), ap one_if ((eqb_iff w i).1 e)))
    | inr later ↦ held_once u v i t (omega arith) (rw second at p) (rw later at q)
  ]
]

-- Whatever goroutines have done, the stream that DESCRIBE and SETUP offer for a baby is one that was
-- made and not closed, and it is offered for no other baby.
pub offered-IsOpen :
    (cs : List Step) (uid : String) (i : ℕ)
    → offered uid (run cs new_rtsp_server) ≡ some i
    → ((e : StreamEntry) × (get_elem? (run cs new_rtsp_server).entries i ≡ some e)
        × (e.closed ≡ false))
      × ((v : String) → offered v (run cs new_rtsp_server) ≡ some i → v ≡ uid)
unfolding offered
offered-IsOpen cs uid i h =
    let s = run cs new_rtsp_server in
    let (owned, unique) = reached-IsOwned cs in
    let held = holds-some uid i (run cs new_rtsp_server).streams h in
    let below =
      is_below i (length (run cs new_rtsp_server).entries) _ (owned i) (omega (arith, held)) in
    let (e, here, is_closed) = find_entry i (run cs new_rtsp_server).entries below in
    let least = not_below i (length (run cs new_rtsp_server).entries) in
    (
      (e, here, unset e.closed (omega (arith, owned i, held, is_closed, least))),
      λ v k. held_once uid v i (run cs new_rtsp_server).streams (omega (arith, owned i, least)) h k,
    )

waits_get : (i : ℕ) (l : List ℕ) → 0 < waits i l → (n : ℕ) × (get_elem? l n ≡ some i)
unfolding waits
waits_get i [] h = absurd (omega arith)
waits_get i (v ∷ l) h = elim (Bool-cases (eqb v i)) [
  | inl same ↦ (0, ap some ((eqb_iff v i).0 same))
  | inr other ↦ let (n, found) = waits_get i l (omega (arith, ap one_if other)) in (suc n, found)
]

set_to : (b : Bool) → 0 < one_if b → b ≡ true
set_to true h = refl
set_to false h = absurd (omega arith)

closed_get :
    (i : ℕ) (es : List StreamEntry) {e : StreamEntry}
    → get_elem? es i ≡ some e
    → closed_at i es ≡ one_if e.closed
unfolding closed_at
closed_get i [] h = cc
closed_get zero (x ∷ es) {e} h =
    let same : x ≡ e = cc in ap (λ (x : StreamEntry). one_if x.closed) same
closed_get (suc i) (x ∷ es) h = closed_get i es h

made :
    (i : ℕ) (es : List StreamEntry) {e : StreamEntry}
    → get_elem? es i ≡ some e
    → one_if (ltb i (length es)) ≡ 1
made i [] h = cc
made zero (x ∷ es) h = ground arith
made (suc i) (x ∷ es) h =
    let same : ltb (suc i) (suc (length es)) ≡ ltb i (length es) = ground arith in
    ap one_if same ∙ made i es h

left_over :
    (h w c o n : ℕ) → ltb 0 w ≡ false → ltb 0 h ≡ false → h + w + c ≡ o → o ≡ 1 → c ≡ n → 0 < n
left_over h w c o n settled gone owned one same = ground arith

-- No stream is forgotten: whatever goroutines have done, an entry that was made is closed, or some
-- goroutine is about to close it, or the table offers it for a baby.
pub run-KeepsTrack :
    (cs : List Step) (i : ℕ) (e : StreamEntry)
    → get_elem? (run cs new_rtsp_server).entries i ≡ some e
    → (e.closed ≡ true)
      ⊎ (((n : ℕ) × (get_elem? (run cs new_rtsp_server).closing n ≡ some i))
          ⊎ ((uid : String) × (offered uid (run cs new_rtsp_server) ≡ some i)))
unfolding offered
run-KeepsTrack cs i e h =
    let (owned, unique) = reached-IsOwned cs in
    let is_closed = closed_get i (run cs new_rtsp_server).entries h in
    let one = made i (run cs new_rtsp_server).entries h in
    elim (Bool-cases (ltb 0 (waits i (run cs new_rtsp_server).closing))) [
      | inl waiting ↦ inr (inl (waits_get i _ (ground arith)))
      | inr settled ↦ elim (Bool-cases (ltb 0 (holds i (run cs new_rtsp_server).streams))) [
        | inl tabled ↦ inr (inr (holds-lookup i _ unique (ground arith)))
        | inr gone ↦
            inl (set_to e.closed (left_over _ _ _ _ _ settled gone (owned i) one is_closed))
      ]
    ]
