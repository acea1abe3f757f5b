-- ===== src/Prelude/Text.antt =====
-- strings.TrimSpace, strings.ToLower and strings.EqualFold.
use Prim.Native.Nat.{ℕ, ◌+◌}
use Prim.Native.Char.{code}
use Prim.Native.String.{String}
use mathlib.Core.Bool.{Bool, true, false, ◌&&◌, ◌||◌}
use mathlib.Core.List.{List, [], ◌∷◌, reverse}
use ocpphal_go.Prelude.Tests.{leb, eqb, if◌then◌else◌}

-- The code points of a text.
abbrev pub codes : String → List ℕ
codes String.[] = []
codes (String.◌∷◌ c s) = code c ∷ codes s

-- unicode.IsSpace
unfoldable pub is_space : ℕ → Bool
is_space c =
    leb 9 c && leb c 13
    || eqb c 32
    || eqb c 0x85
    || eqb c 0xa0
    || eqb c 0x1680
    || leb 0x2000 c && leb c 0x200a
    || eqb c 0x2028
    || eqb c 0x2029
    || eqb c 0x202f
    || eqb c 0x205f
    || eqb c 0x3000

drop_spaces : List ℕ → List ℕ
unfolding is_space
drop_spaces [] = []
drop_spaces (c ∷ s) = if is_space c then drop_spaces s else c ∷ s

unfoldable pub trim_codes : List ℕ → List ℕ
unfolding drop_spaces
trim_codes s = reverse (drop_spaces (reverse (drop_spaces s)))

-- unicode.ToLower where it has to do with ASCII: U+0130 and U+212A are the letters outside ASCII
-- with a lower case inside. The other letters outside ASCII stay outside, and are left as they are.
lower : ℕ → ℕ
lower c =
    if leb 65 c && leb c 90
    then c + 32
    else if eqb c 0x130
    then 105
    else if eqb c 0x212a
    then 107
    else c

-- The class under EqualFold's simple folding, for letters that fold into ASCII: U+017F folds to
-- `s` and U+212A to `k`.
fold : ℕ → ℕ
fold c =
    if leb 65 c && leb c 90
    then c + 32
    else if eqb c 0x17f
    then 115
    else if eqb c 0x212a
    then 107
    else c

same_codes : List ℕ → List ℕ → Bool
same_codes [] [] = true
same_codes (a ∷ s) (b ∷ t) = eqb a b && same_codes s t
same_codes _ _ = false

lower_all : List ℕ → List ℕ
unfolding lower
lower_all [] = []
lower_all (c ∷ s) = lower c ∷ lower_all s

fold_all : List ℕ → List ℕ
unfolding fold
fold_all [] = []
fold_all (c ∷ s) = fold c ∷ fold_all s

-- `strings.ToLower(strings.TrimSpace(s)) == word`
unfoldable pub is_word : String → String → Bool
unfolding same_codes lower_all trim_codes
is_word s word = same_codes (lower_all (trim_codes (codes s))) (codes word)

-- `strings.EqualFold(s, word)`
unfoldable pub equal_fold : String → String → Bool
unfolding same_codes fold_all
equal_fold s word = same_codes (fold_all (codes s)) (fold_all (codes word))

-- `strings.EqualFold(strings.TrimSpace(s), word)`
unfoldable pub trimmed_equal_fold : String → String → Bool
unfolding same_codes fold_all trim_codes
trimmed_equal_fold s word = same_codes (fold_all (trim_codes (codes s))) (fold_all (codes word))

-- `strings.TrimSpace(s) == ""`
unfoldable pub is_blank : String → Bool
unfolding trim_codes same_codes
is_blank s = same_codes (trim_codes (codes s)) []

abbrev pub is_digit : ℕ → Bool
is_digit c = leb 48 c && leb c 57

abbrev pub all_digits : List ℕ → Bool
all_digits [] = true
all_digits (c ∷ cs) = is_digit c && all_digits cs

-- The expression ^[1-9][0-9]*$.
abbrev pub is_positive_decimal : List ℕ → Bool
is_positive_decimal [] = false
is_positive_decimal (c ∷ cs) = leb 49 c && leb c 57 && all_digits cs
