-- ===== src/Data/RateLimit.antt =====
-- packages/data-plane/src/rate-limit.ts: TokenBucket, which spaces the requests to a source. Times
-- are in milliseconds, and the interval is a whole number of them.
use federated_reserve.Prelude.{
  ℕ, ◌+◌, ◌-◌, ◌≤◌, max, List, [], ◌∷◌, if◌then◌else◌, ltb, arith, Empty,
}

-- A call of `acquire`: when it is made, by how much its turn in the chain comes late, and by how
-- much its timer fires late, if it sets one.
pub record Call : Type 0 where
  pub asked : ℕ
  pub delay : ℕ
  pub late : ℕ

-- When a call that looks at the clock at `now` is released: at once, or when its timer fires.
abbrev pub release : ℕ → ℕ → ℕ → ℕ
release next now late = if ltb 0 (next - now) then now + (next - now) + late else now

-- `nextAvailableAt` after it; `now` is the time that was read before the timer.
abbrev pub next_available : ℕ → ℕ → ℕ → ℕ
next_available interval next now = max now next + interval

-- The releases of a sequence of calls, the first of which comes after a release at `previous`.
unfoldable pub acquire_all : ℕ → ℕ → ℕ → List Call → List ℕ
acquire_all interval previous next [] = []
acquire_all interval previous next (c ∷ cs) =
    let now : ℕ = max c.asked previous + c.delay in
    let released : ℕ = release next now c.late in
    released ∷ acquire_all interval released (next_available interval next now) cs

-- The release after `r` comes an interval later, but for the lateness of the timer of `r`.
abbrev pub Follows : ℕ → ℕ → ℕ → List ℕ → Type 0
Follows interval late r [] = Unit
Follows interval late r (q ∷ qs) = r + interval ≤ q + late

-- The releases come one by one, each not before its slot, the slots an interval apart.
abbrev pub IsPaced : ℕ → ℕ → List Call → List ℕ → Type 0
IsPaced interval slot [] [] = Unit
IsPaced interval slot (c ∷ cs) (r ∷ rs) =
    (slot ≤ r) × Follows interval c.late r rs × IsPaced interval (slot + interval) cs rs
IsPaced interval slot _ _ = Empty

later-IsPaced :
    (interval slot later : ℕ) (cs : List Call) (rs : List ℕ)
    → slot ≤ later
    → IsPaced interval later cs rs
    → IsPaced interval slot cs rs
later-IsPaced interval slot later [] [] h p = tt
later-IsPaced interval slot later (c ∷ cs) (r ∷ rs) h (q, f, p) = (
  omega (arith, h, q),
  f,
  later-IsPaced interval (slot + interval) (later + interval) cs rs (omega (arith, h)) p,
)
later-IsPaced interval slot later [] (r ∷ rs) h p = elim p [ ]
later-IsPaced interval slot later (c ∷ cs) [] h p = elim p [ ]

-- However many calls wait, whenever they were made and however late their timers fire, the k-th
-- release after the first slot comes at least k intervals after it, so that no drift builds up; and
-- two releases in a row are an interval apart, less the lateness of the timer of the first of them.
pub acquire_all-IsPaced :
    (interval previous next : ℕ) (calls : List Call)
    → IsPaced interval next calls (acquire_all interval previous next calls)
unfolding acquire_all
acquire_all-IsPaced interval previous next [] = tt
acquire_all-IsPaced interval previous next (c ∷ cs) =
    let now : ℕ = max c.asked previous + c.delay in
    let released : ℕ = release next now c.late in
    let slot : ℕ = next_available interval next now in
    (
      after_slot now,
      follows cs,
      later-IsPaced interval (next + interval) slot cs _ (omega arith)
          (acquire_all-IsPaced interval released slot cs),
    )
  where
    after_slot : (now : ℕ) → next ≤ release next now c.late
    after_slot now = ground arith

    follows :
        (ds : List Call)
        → Follows interval c.late (release next (max c.asked previous + c.delay) c.late) (
            acquire_all interval
              (release next (max c.asked previous + c.delay) c.late)
              (next_available interval next (max c.asked previous + c.delay))
              ds)
    follows [] = tt
    follows (d ∷ ds) = ground arith
