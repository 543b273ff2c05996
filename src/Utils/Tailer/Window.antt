-- ===== src/Utils/Tailer/Window.antt =====
-- The tailer shows the last lines that it was given.
use nanit_onvif.Prelude.{
  ℕ, zero, suc, ◌+◌, ◌-◌, ◌%◌, ◌≤◌, ◌<◌, ◌≡◌, refl, ap, ap₂, ◌∙◌, sym, ◌≢◌, ◌⊎◌, some, String, List,
  [], ◌∷◌, ◌++◌, append_assoc, append-nil, length, length-append, ltb, if◌then◌else◌, set,
  length-set, length-replicate, get_or-set_self, get_or-set_ne, drop, arith, Bool-cases, inl, inr,
}
use native.Mathlib.Nat.{mod-lt, mod-eq_of_lt, mod-eq-sub-mod}
use nanit_onvif.Utils.Tailer.{LogTailer, new_log_tailer, collect, get_lines, append, tail}

pub record IsValid (t : LogTailer) : Type 0 where
  pub sized : length t.lines ≡ t.max_num_lines
  pub next_in : t.next_idx < t.max_num_lines
  pub num_in : t.num_lines ≤ t.max_num_lines

-- The last `n` elements of a list.
abbrev pub keep_last {ℓ} : {A : Type ℓ} → ℕ → List A → List A
keep_last n xs = drop (length xs - n) xs

pub new_log_tailer-IsValid : (max : ℕ) → 0 < max → IsValid (new_log_tailer max)
unfolding new_log_tailer
new_log_tailer-IsValid max h = record {
  sized = length-replicate max "";
  next_in = h;
  num_in = omega arith;
}

wrap-lt : (x m : ℕ) → x < m → x % m ≡ x
wrap-lt x m h = mod-eq_of_lt h

wrap-ge : (x m : ℕ) → m ≤ x → x < m + m → x % m ≡ x - m
wrap-ge x m h k = mod-eq-sub-mod h ∙ mod-eq_of_lt (omega arith)

-- Either way round the end of the buffer.
next_cases :
    (n m : ℕ) → n < m → ((n + 1) % m ≡ n + 1) × (n + 1 < m) ⊎ ((n + 1) % m ≡ 0) × (n + 1 ≡ m)
next_cases n m h = elim (Bool-cases (ltb (n + 1) m)) [
  | inl below ↦ inl (wrap-lt (n + 1) m (ground arith), ground arith)
  | inr over ↦ inr (wrap-ge (n + 1) m (ground arith) (omega arith) ∙ (ground arith), ground arith)
]

index_last : (n m : ℕ) → n < m → ((n + 1) % m + m - 1 - 0) % m ≡ n
index_last n m h = elim (next_cases n m h) [
  | inl (e, k) ↦ rw e (wrap-ge (n + 1 + m - 1 - 0) m (omega arith) (omega arith) ∙ omega arith)
  | inr (e, k) ↦ rw e (wrap-lt (0 + m - 1 - 0) m (omega arith) ∙ omega arith)
]

index_shift :
    (n m i : ℕ) → n < m → suc i < m → ((n + 1) % m + m - 1 - suc i) % m ≡ (n + m - 1 - i) % m
index_shift n m i h k = elim (next_cases n m h) [
  | inl (e, b) ↦ rw e (ap (λ x. x % m) (omega arith))
  | inr (e, b) ↦ rw e (
      wrap-lt (0 + m - 1 - suc i) m (omega arith)
      ∙ (omega arith)
      ∙ sym (wrap-ge (n + m - 1 - i) m (omega arith) (omega arith)))
]

index_ne : (n m i : ℕ) → n < m → suc i < m → n ≢ (n + m - 1 - i) % m
index_ne n m i h k = elim (Bool-cases (ltb (n + m - 1 - i) m)) [
  | inl b ↦ rw (wrap-lt (n + m - 1 - i) m (ground arith)) (omega arith)
  | inr b ↦
      let over : m ≤ n + m - 1 - i = ground arith in
      rw (wrap-ge (n + m - 1 - i) m over (omega arith)) (omega arith)
]

length-collect : (t : LogTailer) (n : ℕ) → length (collect t n) ≡ n
unfolding collect
length-collect t zero = refl
length-collect t (suc n) = ap suc (length-collect t n)

-- The tailer after a line was stored.
abbrev stored : LogTailer → String → LogTailer
stored t line = record t {
  lines = set t.lines t.next_idx line;
  next_idx = (t.next_idx + 1) % t.max_num_lines;
  num_lines = if ltb t.num_lines t.max_num_lines then t.num_lines + 1 else t.num_lines;
}

append-stored : (t : LogTailer) (line : String) → IsValid t → append t line ≡ some (stored t line)
unfolding append
append-stored t line v = ground arith

stored-IsValid : (t : LogTailer) (line : String) → IsValid t → IsValid (stored t line)
stored-IsValid t line v = record {
  sized = length-set t.lines t.next_idx line ∙ v.sized;
  next_in = mod-lt (t.next_idx + 1) (omega arith);
  num_in = ground arith;
}

-- The newest line comes last, and the earlier ones are read where they were.
collect-stored :
    (t : LogTailer) (line : String)
    → IsValid t
    → (k : ℕ) → k < t.max_num_lines
    → collect (stored t line) (suc k) ≡ collect t k ++ (line ∷ [])
unfolding collect
collect-stored t line v zero h =
    rw (index_last t.next_idx t.max_num_lines v.next_in)
      (ap (λ x. x ∷ []) (get_or-set_self t.lines t.next_idx line "" (omega (arith, v.sized))))
collect-stored t line v (suc k) h =
    ap₂ ◌∷◌
      (rw (index_shift t.next_idx t.max_num_lines k v.next_in h) (
        get_or-set_ne t.lines t.next_idx ((t.next_idx + t.max_num_lines - 1 - k) % t.max_num_lines)
          line "" (index_ne t.next_idx t.max_num_lines k v.next_in h)))
      (collect-stored t line v k (omega arith))

keep_last-drop {ℓ} :
    {A : Type ℓ} (n k : ℕ) (xs : List A) → length xs ≡ k + n → keep_last n xs ≡ drop k xs
keep_last-drop n k xs h = let e : length xs - n ≡ k = omega arith in ap (λ i. drop i xs) e

length-collect-append :
    (t : LogTailer) (n : ℕ) (line : String) → length (collect t n ++ (line ∷ [])) ≡ n + 1
length-collect-append t n line =
    length-append (collect t n) (line ∷ []) ∙ ap (λ k. k + 1) (length-collect t n)

collect_room :
    (t : LogTailer) (line : String)
    → IsValid t
    → t.num_lines < t.max_num_lines
    → collect (stored t line) (suc t.num_lines)
      ≡ keep_last t.max_num_lines (collect t t.num_lines ++ (line ∷ []))
collect_room t line v h =
    collect-stored t line v t.num_lines h
    ∙ sym (ap (λ i. drop i (collect t t.num_lines ++ (line ∷ []))) none_lost)
  where
    none_lost : length (collect t t.num_lines ++ (line ∷ [])) - t.max_num_lines ≡ 0
    none_lost = omega (arith, length-collect-append t t.num_lines line)

collect_full :
    (t : LogTailer) (line : String)
    → IsValid t
    → (p : ℕ) → t.max_num_lines ≡ suc p
    → collect (stored t line) (suc p) ≡ keep_last t.max_num_lines (collect t (suc p) ++ (line ∷ []))
unfolding collect
collect_full t line v p e =
    collect-stored t line v p (omega arith)
    ∙ sym (
        keep_last-drop t.max_num_lines 1 (collect t (suc p) ++ (line ∷ []))
          (omega (arith, length-collect-append t (suc p) line)))

get_lines-stored :
    (t : LogTailer) (line : String)
    → IsValid t
    → get_lines (stored t line) ≡ keep_last t.max_num_lines (get_lines t ++ (line ∷ []))
unfolding get_lines
get_lines-stored t line v = elim (Bool-cases (ltb t.num_lines t.max_num_lines)) [
  | inl room ↦
      let num : (stored t line).num_lines ≡ suc t.num_lines = ground arith in
      ap (collect (stored t line)) num ∙ collect_room t line v (ground arith)
  | inr full ↦
      let p : ℕ = t.max_num_lines - 1 in
      let e : t.max_num_lines ≡ suc p = omega arith in
      let num : (stored t line).num_lines ≡ suc p = ground arith in
      let old : t.num_lines ≡ suc p = ground arith in
      ap (collect (stored t line)) num
      ∙ collect_full t line v p e
      ∙ ap (λ n. keep_last t.max_num_lines (collect t n ++ (line ∷ []))) (sym old)
]

keep_last-all {ℓ} : {A : Type ℓ} (n : ℕ) (xs : List A) → length xs ≤ n → keep_last n xs ≡ xs
keep_last-all n xs h = let e : length xs - n ≡ 0 = omega arith in ap (λ i. drop i xs) e

keep_last-cons {ℓ} :
    {A : Type ℓ} (n : ℕ) (x : A) (xs : List A)
    → n ≤ length xs
    → keep_last n (x ∷ xs) ≡ keep_last n xs
keep_last-cons n x xs h =
    let e : length (x ∷ xs) - n ≡ suc (length xs - n) = omega arith in ap (λ i. drop i (x ∷ xs)) e

keep_last-append {ℓ} :
    {A : Type ℓ} (n : ℕ) (xs ys : List A)
    → keep_last n (keep_last n xs ++ ys) ≡ keep_last n (xs ++ ys)
keep_last-append {A = A} n [] ys = rw (keep_last-all {A = A} n [] (omega arith))
keep_last-append n (x ∷ xs) ys = elim (Bool-cases (ltb (length xs) n)) [
  | inl short ↦ rw (keep_last-all n (x ∷ xs) (ground arith))
  | inr long ↦
      let fits : n ≤ length xs = ground arith in
      ap (λ l. keep_last n (l ++ ys)) (keep_last-cons n x xs fits)
      ∙ keep_last-append n xs ys
      ∙ sym (keep_last-cons n x (xs ++ ys) (omega (arith, length-append xs ys)))
]

length-get_lines : (t : LogTailer) → length (get_lines t) ≡ t.num_lines
unfolding get_lines
length-get_lines t = length-collect t t.num_lines

tail-stored :
    (t : LogTailer) (lines : List String)
    → IsValid t
    → (t' : LogTailer) × (tail t lines ≡ some t')
      × IsValid t'
      × (get_lines t' ≡ keep_last t.max_num_lines (get_lines t ++ lines))
unfolding tail
tail-stored t [] v =
    (t, refl, v, rw append-nil (sym (keep_last-all t.max_num_lines (get_lines t) (few t v))))
  where
    few : (t : LogTailer) → IsValid t → length (get_lines t) ≤ t.max_num_lines
    few t v = omega (arith, length-get_lines t)
tail-stored t (l ∷ ls) v =
    let (t', ran, v', shown) = tail-stored (stored t l) ls (stored-IsValid t l v) in
    (
      t',
      rw (append-stored t l v, tail) ran,
      v',
      shown
          ∙ ap (λ g. keep_last t.max_num_lines (g ++ ls)) (get_lines-stored t l v)
          ∙ keep_last-append t.max_num_lines (get_lines t ++ (l ∷ [])) ls
          ∙ ap (keep_last t.max_num_lines) (append_assoc (get_lines t) (l ∷ []) ls),
    )

-- Tailing any lines into a new tailer of a positive size succeeds and keeps the buffer well formed,
-- and `GetLines` then returns the last of them, oldest first: as many as the tailer holds, or all
-- of them if they are fewer.
pub get_lines-tail :
    (max : ℕ) (lines : List String)
    → 0 < max
    → (t : LogTailer) × (tail (new_log_tailer max) lines ≡ some t)
      × IsValid t
      × (get_lines t ≡ keep_last max lines)
unfolding new_log_tailer get_lines collect
get_lines-tail max lines h = tail-stored (new_log_tailer max) lines (new_log_tailer-IsValid max h)
