-- ===== src/Utils/Tailer.antt =====
-- pkg/utils/tailer.go: a circular buffer of the last lines.
pub mod Window
use nanit_onvif.Prelude.{
  ℕ, zero, suc, ◌+◌, ◌-◌, ◌%◌, Option, none, some, String, List, [], ◌∷◌, length, ltb,
  if◌then◌else◌, get_or, set, replicate,
}

pub record LogTailer : Type 0 where
  pub lines : List String
  pub num_lines : ℕ
  pub max_num_lines : ℕ
  pub next_idx : ℕ

unfoldable pub new_log_tailer : ℕ → LogTailer
new_log_tailer max = record {
  lines = replicate max "";
  num_lines = 0;
  max_num_lines = max;
  next_idx = 0;
}

-- The loop of `GetLines`, on the rounds left: `i` runs from `numLines - 1` down to 0 and fills the
-- result from the front. The index is never negative, since `i < maxNumLines`.
unfoldable pub collect : LogTailer → ℕ → List String
collect t zero = []
collect t (suc i) =
    get_or t.lines ((t.next_idx + t.max_num_lines - 1 - i) % t.max_num_lines) "" ∷ collect t i

unfoldable pub get_lines : LogTailer → List String
get_lines t = collect t t.num_lines

-- `none` is the panic of a write out of range (a tailer of no lines).
unfoldable pub append : LogTailer → String → Option LogTailer
append t line =
    if ltb t.next_idx (length t.lines)
    then some (record t {
      lines = set t.lines t.next_idx line;
      next_idx = (t.next_idx + 1) % t.max_num_lines;
      num_lines = if ltb t.num_lines t.max_num_lines then t.num_lines + 1 else t.num_lines;
    })
    else none

-- `Tail`, on the lines that the scanner yields.
unfoldable pub tail : LogTailer → List String → Option LogTailer
tail t [] = some t
tail t (line ∷ rest) = elim (append t line) [ none ↦ none | some t' ↦ tail t' rest ]
