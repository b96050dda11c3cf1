-- ===== src/Shared/Platform.antt =====
-- What the program uses of the JavaScript platform: times, texts of numbers and the order of texts.
use federated_reserve.Prelude.{ℕ, String, Option, Bool, List, [], ◌∷◌}
use Prim.Native.String.{◌++◌ as append}

-- Times are counted in milliseconds; `none` is the time of a text that is not a date.
pub record Platform : Type 0 where
  -- `new Date(ms).toISOString()`
  pub iso_string : ℕ → String
  -- `new Date(text).getTime()`
  pub time_of : String → Option ℕ
  -- `a.localeCompare(b) <= 0`
  pub locale_leb : String → String → Bool
  -- `${n}`
  pub number_text : ℕ → String

-- A template literal of texts.
abbrev pub concat : List String → String
concat [] = ""
concat (s ∷ rest) = append s (concat rest)
