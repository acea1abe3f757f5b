-- ===== src/Prelude/Decimal/Trimmed.antt =====
-- The text of a number has no spaces to cut.
use Prim.Native.Nat.{ℕ, zero, suc, ◌/◌, ◌%◌}
use Prim.Native.Char.{code}
use Prim.Native.String.{String}
use mathlib.Core.Path.{◌≡◌, refl, ap, ◌∙◌}
use mathlib.Core.Logic.{inl, inr}
use mathlib.Core.Bool.{false}
use native.Mathlib.Omega.{arith}
use ocpphal_go.Prelude.Tests.{Bool-cases, eqb}
use ocpphal_go.Prelude.Int.{ℤ, pos, negsuc}
use ocpphal_go.Prelude.Text.{is_space}
use ocpphal_go.Prelude.Strings.{trim_left, trim_right, put_before, trim_space}
use ocpphal_go.Prelude.Decimal.{digit, format_digits, format_ℕ, itoa}

NoSpaces : String → Type 0
NoSpaces String.[] = Unit
NoSpaces (String.◌∷◌ c s) = (is_space (code c) ≡ false) × NoSpaces s

trim_left-NoSpaces : (s : String) → NoSpaces s → trim_left s ≡ s
unfolding trim_left NoSpaces
trim_left-NoSpaces String.[] h = refl
trim_left-NoSpaces (String.◌∷◌ c s) h = ground (arith, h.0)

trim_right-NoSpaces : (s : String) → NoSpaces s → trim_right s ≡ s
unfolding trim_right NoSpaces put_before
trim_right-NoSpaces String.[] h = refl
trim_right-NoSpaces (String.◌∷◌ c s) h = rw (h.0) (ap (String.◌∷◌ c) (trim_right-NoSpaces s h.1))

digit-NoSpaces : (d : ℕ) → is_space (code (digit d)) ≡ false
unfolding is_space
digit-NoSpaces zero = refl
digit-NoSpaces (suc zero) = refl
digit-NoSpaces (suc (suc zero)) = refl
digit-NoSpaces (suc (suc (suc zero))) = refl
digit-NoSpaces (suc (suc (suc (suc zero)))) = refl
digit-NoSpaces (suc (suc (suc (suc (suc zero))))) = refl
digit-NoSpaces (suc (suc (suc (suc (suc (suc zero)))))) = refl
digit-NoSpaces (suc (suc (suc (suc (suc (suc (suc zero))))))) = refl
digit-NoSpaces (suc (suc (suc (suc (suc (suc (suc (suc zero)))))))) = refl
digit-NoSpaces (suc (suc (suc (suc (suc (suc (suc (suc (suc n))))))))) = refl

format_digits-NoSpaces :
    (fuel n : ℕ) (out : String) → NoSpaces out → NoSpaces (format_digits fuel n out)
unfolding format_digits NoSpaces
format_digits-NoSpaces zero n out h = h
format_digits-NoSpaces (suc fuel) n out h = ground (
  arith,
  h,
  format_digits-NoSpaces fuel (n / 10) (String.◌∷◌ (digit (n % 10)) out)
      (digit-NoSpaces (n % 10), h),
)

format_ℕ-NoSpaces : (n : ℕ) → NoSpaces (format_ℕ n)
unfolding format_ℕ NoSpaces is_space
format_ℕ-NoSpaces n = elim (Bool-cases (eqb n 0)) [
  | inl e ↦ rw e (refl, tt)
  | inr e ↦ rw e (format_digits-NoSpaces n n "" tt)
]

itoa-NoSpaces : (i : ℤ) → NoSpaces (itoa i)
unfolding itoa NoSpaces is_space
itoa-NoSpaces (pos n) = format_ℕ-NoSpaces n
itoa-NoSpaces (negsuc n) = (refl, format_ℕ-NoSpaces (suc n))

pub trim_space-itoa : (i : ℤ) → trim_space (itoa i) ≡ itoa i
unfolding trim_space
trim_space-itoa i =
    ap trim_right (trim_left-NoSpaces (itoa i) (itoa-NoSpaces i))
    ∙ trim_right-NoSpaces (itoa i) (itoa-NoSpaces i)
