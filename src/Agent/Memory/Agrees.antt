-- ===== src/Agent/Memory/Agrees.antt =====
-- The two logs of packages/agent/src/memory.ts against each other.
use federated_reserve.Prelude.{
  ℕ, suc, zero, ◌-◌, Option, none, some, List, [], ◌∷◌, ◌++◌, ◌≡◌, ◌∙◌, refl, sym, ap, true, false,
  not, ◌==◌, nat_eq, Bool-cases, inl, inr, All, reverse, select, drop, length, map, append_assoc,
  append-nil, length-map,
}
use mathlib.Core.List.{reverse-cons}
use federated_reserve.Agent.Memory.{
  Json, newline, slice_last, split_lines, add_to_first, append_log, parse_lines, recent_log,
  push_log, push_parsed, recent_pushed, append_all, push_all,
}

-- What JSON promises: a text of an entry is one line, is not blank, and is parsed to the entry.
pub record IsJson {ℓ} {E : Type ℓ} (j : Json E) : Type ℓ where
  pub parsed : (entry : E) → j.parse (j.stringify entry) ≡ some entry
  pub one_line : (entry : E) → All (λ c. (c == newline) ≡ false) (j.stringify entry)
  pub filled : (entry : E) → j.is_blank (j.stringify entry) ≡ false
  pub empty : j.is_blank [] ≡ true

split_lines-append :
    (xs ys : List ℕ)
    → All (λ c. (c == newline) ≡ false) xs
    → split_lines (xs ++ newline ∷ ys) ≡ xs ∷ split_lines ys
unfolding split_lines
split_lines-append [] ys h = refl
split_lines-append (x ∷ xs) ys (n, h) = rw n (ap (add_to_first x) (split_lines-append xs ys h))

drop-map {ℓ κ} :
    {A : Type ℓ} {B : Type κ} (f : A → B) (n : ℕ) (xs : List A)
    → drop n (map f xs) ≡ map f (drop n xs)
drop-map f zero xs = refl
drop-map f (suc n) [] = refl
drop-map f (suc n) (x ∷ xs) = drop-map f n xs

slice_last-map {ℓ κ} :
    {A : Type ℓ} {B : Type κ} (f : A → B) (limit : ℕ) (xs : List A)
    → slice_last limit (map f xs) ≡ map f (slice_last limit xs)
unfolding slice_last
slice_last-map f limit xs = elim (Bool-cases (limit == 0)) [
  | inl e ↦ rw e refl
  | inr e ↦
      rw e (
        ap (λ n. drop (n - limit) (map f xs)) (length-map xs f) ∙ drop-map f (length xs - limit) xs)
]

slice_last_nil {ℓ} : {A : Type ℓ} (limit : ℕ) → slice_last {A = A} limit [] ≡ []
unfolding slice_last
slice_last_nil {A} limit = elim (Bool-cases (limit == 0)) [
  | inl e ↦ rw e refl
  | inr e ↦ rw e (dropped (length {A = A} [] - limit))
]
  where
    dropped : (n : ℕ) → drop {A = A} n [] ≡ []
    dropped zero = refl
    dropped (suc n) = refl

module _ {ℓ} {E : Type ℓ} (j : Json E) (h : IsJson j) where
  -- The file of a sequence of entries.
  file_of : List E → List ℕ
  file_of [] = []
  file_of (entry ∷ entries) = j.stringify entry ++ newline ∷ file_of entries

  lines_of :
      (entries : List E)
      → select (λ l. not (j.is_blank l)) (split_lines (file_of entries)) ≡ map j.stringify entries
  unfolding file_of split_lines
  lines_of [] = rw h.empty refl
  lines_of (entry ∷ entries) =
      ap (select (λ l. not (j.is_blank l)))
        (split_lines-append (j.stringify entry) (file_of entries) (h.one_line entry))
      ∙ rw (h.filled entry) (ap (λ ls. j.stringify entry ∷ ls) (lines_of entries))

  append_all-file_of :
      (entries : List E) (raw : List ℕ)
      → append_all j entries (some raw) ≡ some (raw ++ file_of entries)
  unfolding append_all append_log file_of
  append_all-file_of [] raw = ap some (sym (append-nil raw))
  append_all-file_of (entry ∷ entries) raw =
      append_all-file_of entries (raw ++ (j.stringify entry ++ newline ∷ []))
      ∙ ap some (
          append_assoc raw (j.stringify entry ++ newline ∷ []) (file_of entries)
          ∙ ap (λ t. raw ++ t) (append_assoc (j.stringify entry) (newline ∷ []) (file_of entries)))

  parse_lines-append :
      (lines : List (List ℕ)) (entry : E)
      → parse_lines j (lines ++ j.stringify entry ∷ []) ≡ parse_lines j lines ++ entry ∷ []
  unfolding parse_lines
  parse_lines-append [] entry = ap (λ o. push_parsed j o []) (h.parsed entry)
  parse_lines-append (line ∷ lines) entry =
      ap (push_parsed j (j.parse line)) (parse_lines-append lines entry)
      ∙ pushed (j.parse line) (parse_lines j lines)
    where
      pushed :
          (o : Option E) (es : List E)
          → push_parsed j o (es ++ entry ∷ []) ≡ push_parsed j o es ++ entry ∷ []
      pushed none es = refl
      pushed (some e) es = refl

  parse_lines-reverse :
      (entries : List E) → parse_lines j (reverse (map j.stringify entries)) ≡ reverse entries
  unfolding parse_lines
  parse_lines-reverse [] = refl
  parse_lines-reverse (entry ∷ entries) =
      ap (parse_lines j) (reverse-cons (j.stringify entry) (map j.stringify entries))
      ∙ parse_lines-append (reverse (map j.stringify entries)) entry
      ∙ ap (λ es. es ++ entry ∷ []) (parse_lines-reverse entries)
      ∙ sym (reverse-cons entry entries)

  recent_log-file_of :
      (limit : ℕ) (entries : List E)
      → recent_log j limit (some (file_of entries)) ≡ reverse (slice_last limit entries)
  unfolding recent_log
  recent_log-file_of limit entries =
      ap (λ ls. parse_lines j (reverse (slice_last limit ls))) (lines_of entries)
      ∙ ap (λ ls. parse_lines j (reverse ls)) (slice_last-map j.stringify limit entries)
      ∙ parse_lines-reverse (slice_last limit entries)

  push_all-append : (entries log : List E) → push_all entries log ≡ log ++ entries
  unfolding push_all push_log
  push_all-append [] log = sym (append-nil log)
  push_all-append (entry ∷ entries) log =
      push_all-append entries (log ++ entry ∷ []) ∙ append_assoc log (entry ∷ []) entries

  -- Whatever is appended to a log, and however many entries are asked for, the log on disk and the
  -- log in the process give the same recent entries, the latest first.
  pub recent_log-recent_pushed :
      (limit : ℕ) (entries : List E)
      → recent_log j limit (append_all j entries none) ≡ recent_pushed limit (push_all entries [])
  unfolding recent_pushed append_all append_log recent_log push_all file_of
  recent_log-recent_pushed limit [] = sym (ap reverse (slice_last_nil limit))
  recent_log-recent_pushed limit (entry ∷ entries) =
      ap (recent_log j limit) (
        append_all-file_of entries (j.stringify entry ++ newline ∷ [])
        ∙ ap some (append_assoc (j.stringify entry) (newline ∷ []) (file_of entries)))
      ∙ recent_log-file_of limit (entry ∷ entries)
      ∙ ap (λ log. reverse (slice_last limit log)) (sym (push_all-append (entry ∷ entries) []))
