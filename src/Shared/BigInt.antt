-- ===== src/Shared/BigInt.antt =====
-- `BigInt(text)`, which the swap handlers apply to the amounts of a message.
use Prim.Native.Char.{code}
use federated_reserve.Prelude.{
  ℕ, ◌+◌, ◌-◌, ◌*◌, String, Option, none, some, List, [], ◌∷◌, reverse, Bool, ◌&&◌, ◌||◌,
  if◌then◌else◌, ltb, leb, ◌==◌, nat_eq, ◌>>=◌,
}
use federated_reserve.Prelude.Int.{ℤ, pos, negate}

-- The text of an amount: as it came in, or the text of an integer that the program computed.
pub data AmountText : Type 0 where
  given : String → AmountText
  of_int : ℤ → AmountText

codes : String → List ℕ
codes String.[] = []
codes (String.◌∷◌ c s) = code c ∷ codes s

is_space : ℕ → Bool
is_space c = c == 32 || (leb 9 c && leb c 13)

skip_spaces : List ℕ → List ℕ
skip_spaces [] = []
skip_spaces (c ∷ cs) = if is_space c then skip_spaces cs else c ∷ cs

trim : List ℕ → List ℕ
unfolding skip_spaces is_space
trim cs = reverse (skip_spaces (reverse (skip_spaces cs)))

digit : ℕ → Option ℕ
digit c =
    if leb b'0' c && leb c b'9'
    then some (c - b'0')
    else if leb b'a' c && leb c b'f'
    then some (c - b'a' + 10)
    else if leb b'A' c && leb c b'F'
    then some (c - b'A' + 10)
    else none

-- The digits of a base, at the end of a number read so far.
read_digits : ℕ → ℕ → List ℕ → Option ℕ
unfolding digit
read_digits base n [] = some n
read_digits base n (c ∷ cs) = digit c >>= λ v.
    (let rest = read_digits base (n * base + v) cs in if ltb v base then rest else none)

read_number : ℕ → List ℕ → Option ℕ
unfolding read_digits
read_number base [] = none
read_number base (c ∷ cs) = read_digits base 0 (c ∷ cs)

positive : Option ℕ → Option ℤ
positive n = n >>= λ v. some (pos v)

negative : Option ℕ → Option ℤ
negative n = n >>= λ v. some (negate (pos v))

read_prefixed : ℕ → List ℕ → List ℕ → Option ℤ
unfolding read_number positive
read_prefixed x digits whole =
    if x == b'x' || x == b'X'
    then positive (read_number 16 digits)
    else if x == b'o' || x == b'O'
    then positive (read_number 8 digits)
    else if x == b'b' || x == b'B'
    then positive (read_number 2 digits)
    else positive (read_number 10 whole)

read_integer : List ℕ → Option ℤ
unfolding read_prefixed positive negative read_number
read_integer [] = some (pos 0)
read_integer (c ∷ []) = positive (read_number 10 (c ∷ []))
read_integer (c ∷ x ∷ cs) =
    if c == b'-'
    then negative (read_number 10 (x ∷ cs))
    else if c == b'+'
    then positive (read_number 10 (x ∷ cs))
    else if c == b'0'
    then read_prefixed x cs (c ∷ x ∷ cs)
    else positive (read_number 10 (c ∷ x ∷ cs))

-- `none` is the SyntaxError of a text that is no integer.
unfoldable pub big_int : AmountText → Option ℤ
unfolding codes trim read_integer
big_int (given s) = read_integer (trim (codes s))
big_int (of_int z) = some z
