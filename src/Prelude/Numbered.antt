-- ===== src/Prelude/Numbered.antt =====
-- Lists whose entries carry consecutive numbers, and the buffers that keep the last of them.
use Prim.Native.Nat.{ℕ, zero, suc, ◌+◌, ◌-◌, ◌≤◌, min}
use mathlib.Core.Path.{◌≡◌, subst}
use mathlib.Core.Logic.{inl, inr}
use mathlib.Core.List.{List, [], ◌∷◌, ◌++◌}
use native.Mathlib.Omega.{arith}
use federated_reserve.Prelude.Tests.{ltb, Bool-cases}
use federated_reserve.Prelude.Lists.{length, drop, push_capped, length-append, length-drop}

module _ {ℓ} {A : Type ℓ} (number : A → ℕ) where
  -- The numbers go up from `n`, one by one.
  abbrev pub CountsFrom : ℕ → List A → Type 0
  CountsFrom n [] = Unit
  CountsFrom n (x ∷ xs) = (number x ≡ n) × CountsFrom (suc n) xs

  append-CountsFrom :
      (n : ℕ) (xs : List A) (x : A)
      → CountsFrom n xs
      → number x ≡ n + length xs
      → CountsFrom n (xs ++ x ∷ [])
  append-CountsFrom n [] x h e = (omega (arith, e), tt)
  append-CountsFrom n (y ∷ xs) x (q, h) e = (q, append-CountsFrom (suc n) xs x h (omega (arith, e)))

  drop-CountsFrom :
      (k n : ℕ) (xs : List A) → k ≤ length xs → CountsFrom n xs → CountsFrom (n + k) (drop k xs)
  drop-CountsFrom zero n xs b h = subst (λ m. CountsFrom m xs) (omega arith) h
  drop-CountsFrom (suc k) n [] b h = tt
  drop-CountsFrom (suc k) n (x ∷ xs) b (q, h) =
      subst (λ m. CountsFrom m (drop k xs)) (the_suc n k)
        (drop-CountsFrom k (suc n) xs (omega (arith, b)) h)
    where
      the_suc : (a b : ℕ) → suc a + b ≡ a + suc b
      the_suc a b = omega arith

  -- Of entries that are numbered from 1 on and of which `next` is the next one, the last `cap`.
  pub record IsLatest (cap next : ℕ) (xs : List A) : Type 0 where
    pub positive : 1 ≤ next
    pub size : length xs ≡ min cap (next - 1)
    pub counts : CountsFrom (next - length xs) xs

  pub push_capped-IsLatest :
      (cap next : ℕ) (xs : List A) (x : A)
      → IsLatest cap next xs
      → number x ≡ next
      → IsLatest cap (suc next) (push_capped cap xs x)
  unfolding push_capped
  push_capped-IsLatest cap next xs x h e =
      let ws : List A = xs ++ x ∷ [] in
      let one : length ws ≡ length xs + 1 = length-append xs (x ∷ []) in
      let positive : 1 ≤ next = h.positive in
      let size : length xs ≡ min cap (next - 1) = h.size in
      let start : ℕ = next - length xs in
      let all : CountsFrom start ws =
        append-CountsFrom start xs x h.counts (omega (arith, e, positive, size)) in
      elim (Bool-cases (ltb cap (length ws))) [
        | inl big ↦
            let k : ℕ = length ws - cap in
            let over : cap + 1 ≤ length ws = ground arith in
            let rest : length (drop k ws) ≡ length ws - k = length-drop k ws in
            rw big (record {
              positive = omega arith;
              size = omega (arith, one, rest, size, positive, over);
              counts =
                  subst (λ m. CountsFrom m (drop k ws))
                    (omega (arith, one, rest, size, positive, over))
                    (drop-CountsFrom k start ws (omega arith) all);
            })
        | inr small ↦
            let under : length ws ≤ cap = ground arith in
            rw small (record {
              positive = omega arith;
              size = omega (arith, one, size, positive, under);
              counts = subst (λ m. CountsFrom m ws) (omega (arith, one, size, positive, under)) all;
            })
      ]
