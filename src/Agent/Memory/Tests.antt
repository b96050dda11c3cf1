-- ===== src/Agent/Memory/Tests.antt =====
-- Three entries, each of which is a letter.
use federated_reserve.Prelude.{
  ℕ, none, some, List, [], ◌∷◌, ◌≡◌, refl, true, false, Bool, Option, if◌then◌else◌, ◌==◌, nat_eq,
  All,
}
use federated_reserve.Agent.Memory.{Json, recent_log, append_all, recent_pushed, push_all}
use federated_reserve.Agent.Memory.Agrees.{IsJson, recent_log-recent_pushed}

pub data Letter : Type 0 where
  a b : Letter

abbrev text_of : Letter → List ℕ
text_of a = 97 ∷ []
text_of b = 98 ∷ []

abbrev letter_of : List ℕ → Option Letter
letter_of [] = none
letter_of (c ∷ _) = if c == 97 then some a else some b

abbrev blank : List ℕ → Bool
blank [] = true
blank (_ ∷ _) = false

abbrev letters : Json Letter
letters = record { stringify = text_of; parse = letter_of; is_blank = blank }

letters-IsJson : IsJson letters
letters-IsJson = record { parsed = parsed; one_line = one_line; filled = filled; empty = refl }
  where
    parsed : (l : Letter) → letter_of (text_of l) ≡ some l
    parsed a = refl
    parsed b = refl

    one_line : (l : Letter) → All (λ c. (c == 10) ≡ false) (text_of l)
    one_line a = (refl, tt)
    one_line b = (refl, tt)

    filled : (l : Letter) → blank (text_of l) ≡ false
    filled a = refl
    filled b = refl

recent_log-recent_pushed_example :
    recent_log letters 2 (append_all letters (a ∷ b ∷ b ∷ []) none)
    ≡ recent_pushed 2 (push_all (a ∷ b ∷ b ∷ []) [])
recent_log-recent_pushed_example =
    recent_log-recent_pushed letters letters-IsJson 2 (a ∷ b ∷ b ∷ [])
