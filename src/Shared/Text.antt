-- ===== src/Shared/Text.antt =====
-- Texts. A template literal is kept as the list of its pieces: the letters, and each interpolated
-- value with the way it is rendered.
use Prim.Native.Char.{Char, code}
use federated_reserve.Prelude.{
  ℕ, zero, suc, String, List, [], ◌∷◌, if◌then◌else◌, ◌==◌, nat_eq, string_eq, Bool, true, false,
  ◌&&◌, ◌||◌,
}

pub data Piece : Type 0 where
  lit : String → Piece
  -- `${n}`
  num : ℕ → Piece
  -- `${n.toLocaleString()}`
  local : ℕ → Piece
  -- `${usd.toLocaleString()}` of an amount in millionths of a dollar
  dollars : ℕ → Piece
  -- `${(n / d).toFixed(k)}`
  fixed : ℕ → ℕ → ℕ → Piece

abbrev pub Text : Type 0
Text = List Piece

-- A text that the program only passes on.
abbrev pub plain : String → Text
plain s = lit s ∷ []

translate : String → String → Char → Char
translate (String.◌∷◌ a as') (String.◌∷◌ b bs) c =
    if code a == code c then b else translate as' bs c
translate _ _ c = c

abbrev map_chars : (Char → Char) → String → String
map_chars f String.[] = String.[]
map_chars f (String.◌∷◌ c s) = String.◌∷◌ (f c) (map_chars f s)

-- `s.toUpperCase()` and `s.toLowerCase()`, over the ASCII letters.
unfoldable pub upper : String → String
unfolding translate
upper s = map_chars (translate "abcdefghijklmnopqrstuvwxyz" "ABCDEFGHIJKLMNOPQRSTUVWXYZ") s

unfoldable pub lower : String → String
unfolding translate
lower s = map_chars (translate "ABCDEFGHIJKLMNOPQRSTUVWXYZ" "abcdefghijklmnopqrstuvwxyz") s

-- `s.replace(/<suffix>$/, '')`
unfoldable pub strip_suffix : String → String → String
strip_suffix suffix String.[] = String.[]
strip_suffix suffix (String.◌∷◌ c s) =
    if String.◌∷◌ c s == suffix then String.[] else String.◌∷◌ c (strip_suffix suffix s)

-- `s.slice(0, n)`
unfoldable pub slice : ℕ → String → String
slice zero s = String.[]
slice (suc n) String.[] = String.[]
slice (suc n) (String.◌∷◌ c s) = String.◌∷◌ c (slice n s)

-- `s.startsWith(prefix)`, and `s.includes(part)`
abbrev pub starts_with : String → String → Bool
starts_with s String.[] = true
starts_with String.[] (String.◌∷◌ c part) = false
starts_with (String.◌∷◌ d s) (String.◌∷◌ c part) = code d == code c && starts_with s part

abbrev pub includes : String → String → Bool
includes String.[] part = starts_with "" part
includes (String.◌∷◌ c s) part = starts_with (String.◌∷◌ c s) part || includes s part
