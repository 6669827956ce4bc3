-- ===== src/Py/Text.antt =====
-- Texts: joining, the end of a text, lower case, and the order that `sorted` uses.
pub mod Sorted
use Prim.Native.Char.{code}
use Prim.Native.Nat.{Ordering}
use quest_termux_lab.Base.{
  Bool, List, String, [], eqb, false, if◌then◌else◌, leb, true, ℕ, ◌&&◌, ◌+◌, ◌∷◌,
}
use Prim.Native.String
use Prim.Native.String.{compare as text_order}

-- s + t, and the parts of an f-string
infixr 65 ◌+ₛ◌
abbrev pub ◌+ₛ◌ : String → String → String
s +ₛ t = String.◌++◌ s t

-- sep.join(texts)
abbrev pub join_texts : String → List String → String
join_texts sep [] = ""
join_texts sep (s ∷ []) = s
join_texts sep (s ∷ rest) = s +ₛ sep +ₛ join_texts sep rest

-- s.endswith(c) for one character c, given by its code
abbrev pub ends_with : ℕ → String → Bool
ends_with n String.[] = false
ends_with n (String.◌∷◌ c String.[]) = eqb (code c) n
ends_with n (String.◌∷◌ c s) = ends_with n s

-- s[:-1]
abbrev pub drop_last : String → String
drop_last String.[] = ""
drop_last (String.◌∷◌ c String.[]) = ""
drop_last (String.◌∷◌ c s) = String.◌∷◌ c (drop_last s)

-- The code of a character's lower case, for the letters whose lower case is an ASCII letter: the
-- ASCII capitals and the Kelvin sign. Any other character is left alone, so that a lowered text is
-- found among ASCII texts exactly when Python finds it there.
abbrev pub lower_code : ℕ → ℕ
lower_code n = if leb b'A' n && leb n b'Z' then n + 32 else if eqb n 0x212a then b'k' else n

-- s.lower() == t, for an ASCII text t
abbrev pub lowers_to : String → String → Bool
lowers_to String.[] String.[] = true
lowers_to String.[] (String.◌∷◌ d t) = false
lowers_to (String.◌∷◌ c s) String.[] = false
lowers_to (String.◌∷◌ c s) (String.◌∷◌ d t) = eqb (lower_code (code c)) (code d) && lowers_to s t

abbrev pub text_le : String → String → Bool
text_le s t = elim (text_order s t) [ Ordering.gt ↦ false | _ ↦ true ]

unfoldable pub place : String → List String → List String
place s [] = s ∷ []
place s (t ∷ rest) = if text_le s t then s ∷ t ∷ rest else t ∷ place s rest

-- sorted(texts)
unfoldable pub sort_texts : List String → List String
unfolding place
sort_texts [] = []
sort_texts (s ∷ rest) = place s (sort_texts rest)
