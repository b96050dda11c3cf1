-- ===== src/Agent/Memory.antt =====
-- packages/agent/src/memory.ts: the log of an agent, on disk (LocalDiskMemory) and in the process
-- (InMemoryMemory). A text is the list of the codes of its characters. The state, which is written
-- and read whole, is left out.
pub mod Agrees
mod Tests
use federated_reserve.Prelude.{
  ℕ, ◌-◌, Option, none, some, List, [], ◌∷◌, ◌++◌, Bool, not, if◌then◌else◌, ◌==◌, nat_eq, or_else,
  reverse, select, drop, length,
}

-- What the log uses of the platform, for entries of a type.
pub record Json {ℓ} (E : Type ℓ) : Type ℓ where
  -- `JSON.stringify(entry)`
  pub stringify : E → List ℕ
  -- `JSON.parse(line)`, `none` where it throws
  pub parse : List ℕ → Option E
  -- `line.trim().length === 0`
  pub is_blank : List ℕ → Bool

-- `'\n'`
abbrev pub newline : ℕ
newline = 10

-- `xs.slice(-limit)`, which is the whole of `xs` where the limit is 0
unfoldable pub slice_last {ℓ} : {A : Type ℓ} → ℕ → List A → List A
slice_last limit xs = if limit == 0 then xs else drop (length xs - limit) xs

abbrev pub add_to_first : ℕ → List (List ℕ) → List (List ℕ)
add_to_first c [] = (c ∷ []) ∷ []
add_to_first c (line ∷ lines) = (c ∷ line) ∷ lines

-- `raw.split('\n')`
unfoldable pub split_lines : List ℕ → List (List ℕ)
split_lines [] = [] ∷ []
split_lines (c ∷ cs) = if c == newline then [] ∷ split_lines cs else add_to_first c (split_lines cs)

module _ {ℓ} {E : Type ℓ} (j : Json E) where
  -- `appendLog` of LocalDiskMemory: the file, `none` where there is none, after it.
  unfoldable pub append_log : E → Option (List ℕ) → Option (List ℕ)
  append_log entry file = some (or_else file [] ++ (j.stringify entry ++ newline ∷ []))

  abbrev pub push_parsed : Option E → List E → List E
  push_parsed none entries = entries
  push_parsed (some entry) entries = entry ∷ entries

  -- The lines that can be parsed.
  unfoldable pub parse_lines : List (List ℕ) → List E
  parse_lines [] = []
  parse_lines (line ∷ lines) = push_parsed (j.parse line) (parse_lines lines)

  -- `recentLog` of LocalDiskMemory
  unfoldable pub recent_log : ℕ → Option (List ℕ) → List E
  unfolding parse_lines slice_last split_lines
  recent_log limit none = []
  recent_log limit (some raw) =
      parse_lines (reverse (slice_last limit (select (λ l. not (j.is_blank l)) (split_lines raw))))

-- `appendLog` and `recentLog` of InMemoryMemory
unfoldable pub push_log {ℓ} : {E : Type ℓ} → E → List E → List E
push_log entry log = log ++ entry ∷ []

unfoldable pub recent_pushed {ℓ} : {E : Type ℓ} → ℕ → List E → List E
unfolding slice_last
recent_pushed limit log = reverse (slice_last limit log)

-- The logs after a sequence of entries.
unfoldable pub append_all {ℓ} : {E : Type ℓ} → Json E → List E → Option (List ℕ) → Option (List ℕ)
unfolding append_log
append_all j [] file = file
append_all j (entry ∷ entries) file = append_all j entries (append_log j entry file)

unfoldable pub push_all {ℓ} : {E : Type ℓ} → List E → List E → List E
unfolding push_log
push_all [] log = log
push_all (entry ∷ entries) log = push_all entries (push_log entry log)
