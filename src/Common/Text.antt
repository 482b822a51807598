-- ===== src/Common/Text.antt =====
-- Texts as the codes of their characters, where the program folds their case.
use Prim.Native.String
use Prim.Native.Char.{code}
use Prim.Native.String.{String}
use lite_nvr.Common.{
  ℕ, ◌+◌, Bool, true, false, ◌&&◌, List, [], ◌∷◌, leb, if◌then◌else◌, ◌==◌, nat_eq, map,
}

abbrev pub codes : String → List ℕ
codes String.[] = []
codes (String.◌∷◌ c s) = code c ∷ codes s

abbrev pub same_codes : List ℕ → List ℕ → Bool
same_codes [] [] = true
same_codes (a ∷ s) (b ∷ t) = a == b && same_codes s t
same_codes _ _ = false

-- `to_ascii_lowercase` of a character.
unfoldable pub ascii_lower : ℕ → ℕ
ascii_lower c = if leb b'A' c && leb c b'Z' then c + 32 else c

-- Whether a text is `name`, itself in lower case, when its case is folded.
unfoldable pub folds_to : String → String → Bool
unfolding ascii_lower
folds_to s name = same_codes (map ascii_lower (codes s)) (codes name)

-- `format!("{a}:{b}")`.
abbrev pub by_colon : String → String → String
by_colon a b = String.◌++◌ a (String.◌++◌ ":" b)
