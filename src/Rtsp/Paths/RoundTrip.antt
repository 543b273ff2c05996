-- ===== src/Rtsp/Paths/RoundTrip.antt =====
-- The paths of RTMP and RTSP clients: when they name a baby.
use nanit_onvif.Prelude.{
  true, false, some, [], ◌∷◌, ◌++◌, eqb, eqb_iff, ◌≡◌, ◌↔◌, refl, ap, inl, inr, Bool-cases,
  Option-cases, Text,
}
use nanit_onvif.Baby.Uids.{is_uid_char, all_uid_chars, valid_uid}
use nanit_onvif.Rtsp.Paths.{local_prefix, strip_prefix, take_uid, extract_baby_uid, rtmp_uid}

strip_prefix-append : (p t : Text) → strip_prefix p (p ++ t) ≡ some t
unfolding strip_prefix
strip_prefix-append [] t = refl
strip_prefix-append (c ∷ p) t = rw ((eqb_iff c c).1 refl) (strip_prefix-append p t)

strip_prefix-some : (p s t : Text) → strip_prefix p s ≡ some t → s ≡ p ++ t
unfolding strip_prefix
strip_prefix-some [] s t h = cc
strip_prefix-some (c ∷ p) [] t h = cc
strip_prefix-some (c ∷ p) (d ∷ s) t h = elim (Bool-cases (eqb c d)) [
  | inl same ↦
      let again = strip_prefix-some p s t (rw same at h) in cc (again, (eqb_iff c d).0 same)
  | inr other ↦ cc (rw other at h)
]

-- A publisher is taken for a baby exactly when its path is `/local/` and a valid UID, which is that
-- baby's.
pub rtmp_uid_iff :
    (path uid : Text)
    → (rtmp_uid path ≡ some uid) ↔ ((path ≡ local_prefix ++ uid) × (valid_uid uid ≡ true))
unfolding rtmp_uid
rtmp_uid_iff path uid = (
  λ h. elim (Option-cases (strip_prefix local_prefix path)) [
    | inl missing ↦ cc (rw (rtmp_uid, missing) at h)
    | inr (rest, found) ↦ elim (Bool-cases (valid_uid rest)) [
      | inl valid ↦
          let e : rest ≡ uid = cc (rw (rtmp_uid, found, valid) at h) in
          rw (← e) (strip_prefix-some local_prefix path rest found, valid)
      | inr invalid ↦ cc (rw (rtmp_uid, found, invalid) at h)
    ]
  ],
  λ (at_path, valid). rw (at_path, rtmp_uid, strip_prefix-append local_prefix uid, valid) refl,
)

-- A UID ends at the end of the path or at a character that none has.
abbrev pub Stops : Text → Type 0
Stops [] = Unit
Stops (c ∷ cs) = is_uid_char c ≡ false

take_uid-append :
    (uid rest : Text) → all_uid_chars uid ≡ true → Stops rest → take_uid (uid ++ rest) ≡ uid
unfolding take_uid all_uid_chars
take_uid-append [] [] h k = refl
take_uid-append [] (c ∷ cs) h k = rw k refl
take_uid-append (c ∷ uid) rest h k = elim (Bool-cases (is_uid_char c)) [
  | inl valid ↦ rw valid (ap (λ t. c ∷ t) (take_uid-append uid rest (rw valid at h) k))
  | inr invalid ↦ cc (rw invalid at h)
]

-- An RTSP client that asks for `/local/` and a UID, with whatever behind a character that no UID
-- has, such as a track, gets that UID.
pub extract_baby_uid-path :
    (uid rest : Text)
    → valid_uid uid ≡ true
    → Stops rest
    → extract_baby_uid (local_prefix ++ (uid ++ rest)) ≡ uid
unfolding extract_baby_uid valid_uid
extract_baby_uid-path [] rest h k = cc
extract_baby_uid-path (c ∷ uid) rest h k = take_uid-append (c ∷ uid) rest h k
