-- ===== src/Observer/Health.antt =====
-- packages/observer/src/store.ts: deriveHealth, the colour of a state on the dashboard.
use federated_reserve.Prelude.{
  ℕ, Option, none, some, Bool, true, false, not, ◌&&◌, ◌||◌, if◌then◌else◌, ltb, leb, is_some, ◌≤◌,
  ◌≡◌, arith, Empty,
}
use federated_reserve.Prelude.Int.{ℤ, pos, negsuc, ◌≤ℤ◌}
use federated_reserve.Observer.Types.{Health, unknown, green, amber, red}

-- `x != null && test(x)`
abbrev pub satisfies {ℓ} : {A : Type ℓ} → (A → Bool) → Option A → Bool
satisfies test none = false
satisfies test (some x) = test x

-- `unemployment >= limit`
abbrev at_least : ℕ → ℤ → Bool
at_least limit (pos n) = leb limit n
at_least limit (negsuc n) = false

unfoldable pub derive_health : Option ℕ → Option ℤ → Health
derive_health reserve_ratio unemployment =
    if not (is_some reserve_ratio) && not (is_some unemployment)
    then unknown
    else if satisfies (λ r. ltb r 800) reserve_ratio || satisfies (at_least 700) unemployment
    then red
    else if satisfies (λ r. ltb r 1200) reserve_ratio || satisfies (at_least 550) unemployment
    then amber
    else green

-- How bad a colour is; a state of which nothing is known is not worse than any.
abbrev pub badness : Health → ℕ
badness unknown = 0
badness green = 0
badness amber = 1
badness red = 2

-- Both known, or both not known, and related by `R` if known.
abbrev pub Both {ℓ} : {A : Type ℓ} → (A → A → Type 0) → Option A → Option A → Type 0
Both R none none = Unit
Both R (some a) (some b) = R a b
Both R _ _ = Empty {0}

at_least_mono : (limit : ℕ) (u v : ℤ) → ◌≤ℤ◌ u v → at_least limit u ≡ true → at_least limit v ≡ true
at_least_mono limit (pos m) (pos n) h e = ground arith
at_least_mono limit (pos m) (negsuc n) h e = ground arith
at_least_mono limit (negsuc m) (pos n) h e = ground arith
at_least_mono limit (negsuc m) (negsuc n) h e = ground arith

-- Of two states of which the same is known, the one with reserves that are no lower and with
-- unemployment that is no higher has a colour that is no worse.
pub derive_health_mono :
    (r s : Option ℕ) (u v : Option ℤ)
    → Both (λ a b. b ≤ a) r s
    → Both ◌≤ℤ◌ u v
    → badness (derive_health r u) ≤ badness (derive_health s v)
unfolding derive_health
derive_health_mono none none none none h k = omega arith
derive_health_mono none none (some u) (some v) h k =
    ground (arith, at_least_mono 700 u v k, at_least_mono 550 u v k)
derive_health_mono (some r) (some s) none none h k = ground arith
derive_health_mono (some r) (some s) (some u) (some v) h k =
    ground (arith, at_least_mono 700 u v k, at_least_mono 550 u v k)
derive_health_mono none (some s) u v h k = elim h [ ]
derive_health_mono (some r) none u v h k = elim h [ ]
derive_health_mono none none none (some v) h k = elim k [ ]
derive_health_mono none none (some u) none h k = elim k [ ]
derive_health_mono (some r) (some s) none (some v) h k = elim k [ ]
derive_health_mono (some r) (some s) (some u) none h k = elim k [ ]
