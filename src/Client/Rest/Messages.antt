-- ===== src/Client/Rest/Messages.antt =====
-- Which of the messages fetched are new, in which order, and that none of a fetch is new at the next.
use mathlib.Core.List.Perm
use nanit_onvif.Prelude.{
  ℕ, ◌-◌, ◌≤◌, ◌<◌, Bool, true, List, [], ◌∷◌, ◌≡◌, refl, ◌⊎◌, inl, inr, if◌then◌else◌, ltb, eqb,
  arith, All, Bool-cases,
}
use nanit_onvif.Client.Session.{Session}
use nanit_onvif.Client.Rest.{Message, filter_messages, insert_newest, sort_newest, new_messages}
use mathlib.Core.List.{Perm}

-- Most recent first.
abbrev pub IsNewestFirst : List Message → Type 0
IsNewestFirst [] = Unit
IsNewestFirst (m ∷ ms) = All (λ x. x.time ≤ m.time) ms × IsNewestFirst ms

-- The time that a new message is later than.
abbrev pub cut_of : ℕ → ℕ → Session → ℕ
cut_of now timeout s =
    if eqb s.last_seen_message_time 0 then now - timeout else s.last_seen_message_time

All-mono {κ} :
    {P Q : Message → Type κ} (ms : List Message) → ((m : Message) → P m → Q m) → All P ms → All Q ms
All-mono [] h a = tt
All-mono (m ∷ ms) h (p, a) = (h m p, All-mono ms h a)

module _ {κ} (P : Message → Type κ) where
  All-insert : (m : Message) (xs : List Message) → P m → All P xs → All P (insert_newest m xs)
  unfolding insert_newest
  All-insert m [] p a = (p, tt)
  All-insert m (x ∷ xs) p (q, a) = elim (Bool-cases (ltb m.time x.time)) [
    | inl older ↦ rw (insert_newest, older) (q, All-insert m xs p a)
    | inr newer ↦ rw (insert_newest, newer) (p, (q, a))
  ]

  insert-All : (m : Message) (xs : List Message) → All P (insert_newest m xs) → P m × All P xs
  unfolding insert_newest
  insert-All m [] = λ a. a
  insert-All m (x ∷ xs) = elim (Bool-cases (ltb m.time x.time)) [
    | inl older ↦ rw (insert_newest, older) (λ a. let r = insert-All m xs a.1 in (r.0, (a.0, r.1)))
    | inr newer ↦ rw (insert_newest, newer) (λ a. a)
  ]

  sort-All : (ms : List Message) → All P (sort_newest ms) → All P ms
  unfolding sort_newest
  sort-All [] a = tt
  sort-All (m ∷ ms) a = let r = insert-All m (sort_newest ms) a in (r.0, sort-All ms r.1)

  All-filter : (ms : List Message) (c : Message → Bool) → All P ms → All P (filter_messages ms c)
  unfolding filter_messages
  All-filter [] c a = tt
  All-filter (m ∷ ms) c (p, a) = elim (Bool-cases (c m)) [
    | inl kept ↦ rw (filter_messages, kept) (p, All-filter ms c a)
    | inr left ↦ rw (filter_messages, left) (All-filter ms c a)
  ]

filter-All : (ms : List Message) (c : Message → Bool) → All (λ m. c m ≡ true) (filter_messages ms c)
unfolding filter_messages
filter-All [] c = tt
filter-All (m ∷ ms) c = elim (Bool-cases (c m)) [
  | inl kept ↦ rw (filter_messages, kept) (kept, filter-All ms c)
  | inr left ↦ rw (filter_messages, left) (filter-All ms c)
]

insert-IsNewestFirst :
    (m : Message) (xs : List Message) → IsNewestFirst xs → IsNewestFirst (insert_newest m xs)
unfolding insert_newest
insert-IsNewestFirst m [] h = (tt, tt)
insert-IsNewestFirst m (x ∷ xs) (a, h) = elim (Bool-cases (ltb m.time x.time)) [
  | inl older ↦
      rw (insert_newest, older)
        (
          All-insert (λ y. y.time ≤ x.time) m xs (ground (arith, older)) a,
          insert-IsNewestFirst m xs h,
        )
  | inr newer ↦
      let first : x.time ≤ m.time = ground (arith, newer) in
      rw (insert_newest, newer) ((first, All-mono xs (λ y le. omega (arith, le, first)) a), (a, h))
]

sort-IsNewestFirst : (ms : List Message) → IsNewestFirst (sort_newest ms)
unfolding sort_newest
sort-IsNewestFirst [] = tt
sort-IsNewestFirst (m ∷ ms) = insert-IsNewestFirst m (sort_newest ms) (sort-IsNewestFirst ms)

filter-IsNewestFirst :
    (ms : List Message) (c : Message → Bool)
    → IsNewestFirst ms
    → IsNewestFirst (filter_messages ms c)
unfolding filter_messages
filter-IsNewestFirst [] c h = tt
filter-IsNewestFirst (m ∷ ms) c (a, h) = elim (Bool-cases (c m)) [
  | inl kept ↦
      rw (filter_messages, kept)
        (All-filter (λ y. y.time ≤ m.time) ms c a, filter-IsNewestFirst ms c h)
  | inr left ↦ rw (filter_messages, left) (filter-IsNewestFirst ms c h)
]

filter-cons :
    (x : Message) (xs ys : List Message) (c : Message → Bool)
    → Perm (filter_messages xs c) (filter_messages ys c)
    → Perm (filter_messages (x ∷ xs) c) (filter_messages (x ∷ ys) c)
unfolding filter_messages
filter-cons x xs ys c h = elim (Bool-cases (c x)) [
  | inl kept ↦ rw (kept) (Perm.cons x h)
  | inr left ↦ rw (left) h
]

filter-swap :
    (x y : Message) (xs : List Message) (c : Message → Bool)
    → Perm (filter_messages (x ∷ y ∷ xs) c) (filter_messages (y ∷ x ∷ xs) c)
unfolding filter_messages
filter-swap x y xs c = elim (Bool-cases (c x)) [
  | inr left ↦ rw (left) Perm.rfl
  | inl kept ↦ elim (Bool-cases (c y)) [
    | inr left ↦ rw (kept, left) Perm.rfl
    | inl both ↦ rw (kept, both) (Perm.swap y x (filter_messages xs c))
  ]
]

filter-insert :
    (m : Message) (xs : List Message) (c : Message → Bool)
    → Perm (filter_messages (insert_newest m xs) c) (filter_messages (m ∷ xs) c)
unfolding insert_newest
filter-insert m [] c = Perm.rfl
filter-insert m (x ∷ xs) c = elim (Bool-cases (ltb m.time x.time)) [
  | inr newer ↦ rw (insert_newest, newer) Perm.rfl
  | inl older ↦
      rw (insert_newest, older)
        (Perm.trans (filter-cons x (insert_newest m xs) (m ∷ xs) c (filter-insert m xs c))
          (filter-swap x m xs c))
]

filter-sort :
    (ms : List Message) (c : Message → Bool)
    → Perm (filter_messages (sort_newest ms) c) (filter_messages ms c)
unfolding sort_newest
filter-sort [] c = Perm.rfl
filter-sort (m ∷ ms) c =
    Perm.trans (filter-insert m (sort_newest ms) c)
      (filter-cons m (sort_newest ms) ms c (filter-sort ms c))

List-cases {ℓ} : {A : Type ℓ} (l : List A) → (l ≡ []) ⊎ ((x : A) × (xs : List A) × (l ≡ x ∷ xs))
List-cases [] = inl refl
List-cases (x ∷ xs) = inr (x, xs, refl)

-- The new messages, as the filter of the sorted list.
new_messages-filter :
    (now timeout : ℕ) (ms : List Message) (s : Session)
    → (new_messages now timeout ms s).0
      ≡ filter_messages (sort_newest ms) (λ x. ltb (cut_of now timeout s) x.time)
unfolding new_messages
new_messages-filter now timeout ms s = elim (List-cases (sort_newest ms)) [
  | inl empty ↦ rw (new_messages, empty, filter_messages) refl
  | inr (m, rest, sorted) ↦ rw (new_messages, sorted) refl
]

-- The new messages are, in some order, the messages fetched that are later than the last one seen,
-- or than the timeout where none was seen.
pub new_messages-Perm :
    (now timeout : ℕ) (ms : List Message) (s : Session)
    → Perm
        (new_messages now timeout ms s).0
        (filter_messages ms (λ x. ltb (cut_of now timeout s) x.time))
new_messages-Perm now timeout ms s =
    rw (new_messages-filter now timeout ms s)
      (filter-sort ms (λ x. ltb (cut_of now timeout s) x.time))

-- The new messages come most recent first.
pub new_messages-IsNewestFirst :
    (now timeout : ℕ) (ms : List Message) (s : Session)
    → IsNewestFirst (new_messages now timeout ms s).0
new_messages-IsNewestFirst now timeout ms s = rw (new_messages-filter now timeout ms s) (
    filter-IsNewestFirst (sort_newest ms) (λ x. ltb (cut_of now timeout s) x.time)
      (sort-IsNewestFirst ms))

less-of_ltb : (a b : ℕ) → ltb a b ≡ true → a < b
less-of_ltb a b h = ground (arith, h)

last-cut_of : (now timeout : ℕ) (s : Session) → s.last_seen_message_time ≤ cut_of now timeout s
last-cut_of now timeout s = ground arith

-- Of a list whose most recent message is first, every time is at most any bound of the first's.
newest-All :
    (ms : List Message) (m : Message) (rest : List Message) (t : ℕ)
    → sort_newest ms ≡ m ∷ rest
    → m.time ≤ t
    → All (λ x. x.time ≤ t) ms
newest-All ms m rest t sorted le =
    let h : IsNewestFirst (m ∷ rest) = rw sorted at (sort-IsNewestFirst ms) in
    sort-All (λ x. x.time ≤ t) ms
      (rw sorted (le, All-mono rest (λ x earlier. omega (arith, earlier, le)) h.0))

-- The last time seen is no earlier than before, nor than any message that was fetched.
pub new_messages-last_seen :
    (now timeout : ℕ) (ms : List Message) (s : Session)
    → (s.last_seen_message_time ≤ (new_messages now timeout ms s).1.last_seen_message_time)
      × All (λ x. x.time ≤ (new_messages now timeout ms s).1.last_seen_message_time) ms
unfolding new_messages
new_messages-last_seen now timeout ms s = elim (List-cases (sort_newest ms)) [
  | inl empty ↦
      rw (new_messages, empty)
        (omega arith, sort-All (λ x. x.time ≤ s.last_seen_message_time) ms (rw empty tt))
  | inr (m, rest, sorted) ↦ elim (Bool-cases (ltb s.last_seen_message_time m.time)) [
    | inl older ↦
        let le = less-of_ltb s.last_seen_message_time m.time older in
        rw (new_messages, sorted, older)
          (omega (arith, le), newest-All ms m rest m.time sorted (omega arith))
    | inr newer ↦
        let le : m.time ≤ s.last_seen_message_time = ground (arith, newer) in
        rw (new_messages, sorted, newer)
          (omega arith, newest-All ms m rest s.last_seen_message_time sorted le)
  ]
]

-- Of two fetches, the second reports only messages later than every message of the first, so that
-- no message of the first is reported again, whatever the times of the fetches.
pub new_messages-once :
    (now₁ now₂ timeout₁ timeout₂ : ℕ) (first second : List Message) (s : Session)
    → All
        (λ m. All (λ x. x.time < m.time) first)
        (new_messages now₂ timeout₂ second (new_messages now₁ timeout₁ first s).1).0
new_messages-once now₁ now₂ timeout₁ timeout₂ first second s =
    let s' = (new_messages now₁ timeout₁ first s).1 in
    let seen = (new_messages-last_seen now₁ timeout₁ first s).1 in
    let later = filter-All (sort_newest second) (λ x. ltb (cut_of now₂ timeout₂ s') x.time) in
    rw (new_messages-filter now₂ timeout₂ second s') (
      All-mono (filter_messages (sort_newest second) (λ x. ltb (cut_of now₂ timeout₂ s') x.time))
        (λ m new.
          All-mono first
            (λ x le.
              let c = last-cut_of now₂ timeout₂ s' in
              let l = less-of_ltb (cut_of now₂ timeout₂ s') m.time new in omega (arith, le, c, l))
            seen)
        later)
