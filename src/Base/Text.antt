-- ===== src/Base/Text.antt =====
-- Words that the program compares without regard to case, by their code points.
use Prim.Native.Nat.{ℕ, ◌+◌, ◌-◌}
use Prim.Native.Char.{code}
use Prim.Native.String.{String}
use crypto_trading_system.Base.Tests.{leb, ◌==◌, if◌then◌else◌}
use mathlib.Core.Bool.{Bool, true, false, ◌&&◌}
use mathlib.Core.List.{List, [], ◌∷◌}

abbrev pub codes : String → List ℕ
codes String.[] = []
codes (String.◌∷◌ c s) = code c ∷ codes s

-- `str.lower`, on the letters A to Z.
abbrev pub to_lower : ℕ → ℕ
to_lower c = if leb b'A' c && leb c b'Z' then c + 32 else c

-- `str.upper`, on the letters a to z.
abbrev pub to_upper : ℕ → ℕ
to_upper c = if leb b'a' c && leb c b'z' then c - 32 else c

abbrev pub same_word : (ℕ → ℕ) → List ℕ → List ℕ → Bool
same_word letter [] [] = true
same_word letter [] (_ ∷ _) = false
same_word letter (_ ∷ _) [] = false
same_word letter (c ∷ s) (d ∷ t) = letter c == d && same_word letter s t

-- `text.lower() == word`, for a word in lower case.
unfoldable pub lower_is : String → String → Bool
lower_is text word = same_word to_lower (codes text) (codes word)

-- `text.upper() == word`, for a word in upper case.
unfoldable pub upper_is : String → String → Bool
upper_is text word = same_word to_upper (codes text) (codes word)

-- `text.lower() in words`
unfoldable pub lower_in : String → List String → Bool
unfolding lower_is
lower_in text [] = false
lower_in text (w ∷ ws) = if lower_is text w then true else lower_in text ws
