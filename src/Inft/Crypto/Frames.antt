-- ===== src/Inft/Crypto/Frames.antt =====
-- Writing one piece of bytes after another, as packages/og-inft/src/crypto.ts does with `set`.
use federated_reserve.Prelude.{
  ℕ, zero, suc, ◌+◌, List, [], ◌∷◌, ◌++◌, ◌≡◌, ◌∙◌, refl, sym, ap, nat_eq, length, take, drop,
  arith, drop-drop, append-nil, append_assoc,
}
use federated_reserve.Inft.Crypto.{Bytes, zeros, set_at}

module _ {ℓ} {A : Type ℓ} where
  pub take-append : (n : ℕ) (xs ys : List A) → length xs ≡ n → take n (xs ++ ys) ≡ xs
  take-append zero [] ys h = refl
  take-append zero (x ∷ xs) ys h = absurd (omega (arith, h))
  take-append (suc n) [] ys h = absurd (omega (arith, h))
  take-append (suc n) (x ∷ xs) ys h = ap (λ r. x ∷ r) (take-append n xs ys (omega (arith, h)))

  pub drop-append_length : (n : ℕ) (xs ys : List A) → length xs ≡ n → drop n (xs ++ ys) ≡ ys
  drop-append_length zero [] ys h = refl
  drop-append_length zero (x ∷ xs) ys h = absurd (omega (arith, h))
  drop-append_length (suc n) [] ys h = absurd (omega (arith, h))
  drop-append_length (suc n) (x ∷ xs) ys h = drop-append_length n xs ys (omega (arith, h))

drop-zeros : (n m : ℕ) → drop n (zeros (n + m)) ≡ zeros m
drop-zeros zero m = ap zeros (omega arith)
drop-zeros (suc n) m = ap (λ k. drop (suc n) (zeros k)) (the_suc n m) ∙ drop-zeros n m
  where
    the_suc : (a b : ℕ) → suc a + b ≡ suc (a + b)
    the_suc a b = omega arith

-- What is written at the end of what has been written, into the zeros that are left.
pub set_at-append :
    (offset left : ℕ) (done src : Bytes)
    → length done ≡ offset
    → set_at offset src (done ++ zeros (length src + left)) ≡ (done ++ src) ++ zeros left
set_at-append offset left done src h =
    ap (λ t. t ++ (src ++ drop (offset + length src) (done ++ zeros (length src + left))))
      (take-append offset done (zeros (length src + left)) h)
    ∙ ap (λ t. done ++ (src ++ t))
        (sym (drop-drop (length src) offset (done ++ zeros (length src + left)))
          ∙ ap (λ t. drop (length src) t)
              (drop-append_length offset done (zeros (length src + left)) h)
          ∙ drop-zeros (length src) left)
    ∙ sym (append_assoc done src (zeros left))

-- The last piece, which fills what is left.
pub set_at_last :
    (offset : ℕ) (done src : Bytes)
    → length done ≡ offset
    → set_at offset src (done ++ zeros (length src)) ≡ done ++ src
set_at_last offset done src h =
    ap (λ n. set_at offset src (done ++ zeros n)) (plus_zero (length src))
    ∙ set_at-append offset 0 done src h
    ∙ append-nil (done ++ src)
  where
    plus_zero : (n : ℕ) → n ≡ n + 0
    plus_zero n = omega arith
