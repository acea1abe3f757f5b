-- ===== src/Prelude/Decimal.antt =====
-- strconv.Itoa and strconv.Atoi on a 64-bit machine.
pub mod Trimmed
pub mod Canonical
use Prim.Native.Nat.{ℕ, zero, suc, ◌+◌, ◌-◌, ◌*◌, ◌/◌, ◌%◌, ◌^◌, ◌≤◌, ◌<◌}
use Prim.Native.Char.{Char, code}
use Prim.Native.String.{String}
use mathlib.Core.Bool.{false, ◌||◌}
use mathlib.Core.Logic.{◌⊎◌, inl, inr}
use mathlib.Core.Path.{◌≡◌, refl, ◌∙◌}
use mathlib.Core.Option.{Option, none, some}
use native.Mathlib.Omega.{arith}
use ocpphal_go.Prelude.Tests.{ltb, eqb, if◌then◌else◌}
use ocpphal_go.Prelude.Int.{ℤ, pos, negsuc}

abbrev digit : ℕ → Char
digit zero = "0"
digit (suc zero) = "1"
digit (suc (suc zero)) = "2"
digit (suc (suc (suc zero))) = "3"
digit (suc (suc (suc (suc zero)))) = "4"
digit (suc (suc (suc (suc (suc zero))))) = "5"
digit (suc (suc (suc (suc (suc (suc zero)))))) = "6"
digit (suc (suc (suc (suc (suc (suc (suc zero))))))) = "7"
digit (suc (suc (suc (suc (suc (suc (suc (suc zero)))))))) = "8"
digit _ = "9"

-- The digits of `n` in front of `out`, for `n` up to the fuel.
format_digits : ℕ → ℕ → String → String
format_digits zero n out = out
format_digits (suc fuel) n out =
    let rest = format_digits fuel (n / 10) (String.◌∷◌ (digit (n % 10)) out) in
    if eqb n 0 then out else rest

format_ℕ : ℕ → String
format_ℕ n = if eqb n 0 then "0" else format_digits n n ""

unfoldable pub itoa : ℤ → String
unfolding format_ℕ format_digits
itoa (pos n) = format_ℕ n
itoa (negsuc n) = String.◌∷◌ "-" (format_ℕ (suc n))

scan : String → ℕ → Option ℕ
scan String.[] n = some n
scan (String.◌∷◌ c s) n =
    if ltb (code c) 48 || ltb 57 (code c) then none else scan s (n * 10 + (code c - 48))

digits_only : String → Option ℕ
unfolding scan
digits_only String.[] = none
digits_only (String.◌∷◌ c s) = scan (String.◌∷◌ c s) 0

-- Atoi fails on what is no number and on what an int64 does not hold.
to_pos : Option ℕ → Option ℤ
to_pos none = none
to_pos (some n) = if ltb n (2 ^ 63) then some (pos n) else none

to_neg : Option ℕ → Option ℤ
to_neg none = none
to_neg (some zero) = some (pos 0)
to_neg (some (suc n)) = if ltb n (2 ^ 63) then some (negsuc n) else none

unfoldable pub atoi : String → Option ℤ
unfolding digits_only to_pos to_neg
atoi String.[] = none
atoi (String.◌∷◌ c s) =
    if eqb (code c) 45
    then to_neg (digits_only s)
    else if eqb (code c) 43
    then to_pos (digits_only s)
    else to_pos (digits_only (String.◌∷◌ c s))

abbrev pub IsInt64 : ℤ → Type 0
IsInt64 (pos n) = n < 2 ^ 63
IsInt64 (negsuc n) = n < 2 ^ 63

code-digit : (d : ℕ) → d < 10 → code (digit d) ≡ 48 + d
code-digit zero h = refl
code-digit (suc zero) h = refl
code-digit (suc (suc zero)) h = refl
code-digit (suc (suc (suc zero))) h = refl
code-digit (suc (suc (suc (suc zero)))) h = refl
code-digit (suc (suc (suc (suc (suc zero))))) h = refl
code-digit (suc (suc (suc (suc (suc (suc zero)))))) h = refl
code-digit (suc (suc (suc (suc (suc (suc (suc zero))))))) h = refl
code-digit (suc (suc (suc (suc (suc (suc (suc (suc zero)))))))) h = refl
code-digit (suc (suc (suc (suc (suc (suc (suc (suc (suc zero))))))))) h = refl
code-digit (suc (suc (suc (suc (suc (suc (suc (suc (suc (suc n)))))))))) h = absurd (omega arith)

scan-digit : (d n : ℕ) (s : String) → d < 10 → scan (String.◌∷◌ (digit d) s) n ≡ scan s (n * 10 + d)
unfolding scan
scan-digit d n s h = rw (code-digit d h) (ground (arith, step))
  where
    step : 48 + d - 48 ≡ d
    step = omega arith

Nat-cases : (n : ℕ) → (n ≡ 0) ⊎ (0 < n)
Nat-cases zero = inl refl
Nat-cases (suc n) = inr (omega arith)

tens : (n : ℕ) → n / 10 * 10 + n % 10 ≡ n
tens n = omega arith

scan-format :
    (fuel n : ℕ) (out : String) → n ≤ fuel → scan (format_digits fuel n out) 0 ≡ scan out n
unfolding format_digits
scan-format zero n out h = let e : n ≡ 0 = omega arith in rw e refl
scan-format (suc fuel) n out h = elim (Nat-cases n) [
  | inl e ↦ rw e refl
  | inr e ↦ ground (
    arith,
    scan-format fuel (n / 10) (String.◌∷◌ (digit (n % 10)) out),
    scan-digit (n % 10) (n / 10) out,
    tens n,
  )
]

eqb-suc : (n : ℕ) → eqb (suc n) 0 ≡ false
eqb-suc n = ground arith

-- What a number's text starts with.
record Leads (s : String) : Type 0 where
  first : ℕ
  rest : String
  small : first < 10
  shape : s ≡ String.◌∷◌ (digit first) rest

format_zero : (fuel : ℕ) (out : String) → format_digits fuel 0 out ≡ out
unfolding format_digits
format_zero zero out = refl
format_zero (suc fuel) out = refl

Leads-format : (fuel n : ℕ) (out : String) → 0 < n → n ≤ fuel → Leads (format_digits fuel n out)
unfolding format_digits
Leads-format zero n out p h = absurd (omega arith)
Leads-format (suc fuel) zero out p h = absurd (omega arith)
Leads-format (suc fuel) (suc k) out p h = elim (Nat-cases (suc k / 10)) [
  | inl e ↦ record {
    first = suc k % 10;
    rest = out;
    small = omega arith;
    shape = rw (eqb-suc k, e) (format_zero fuel (String.◌∷◌ (digit (suc k % 10)) out));
  }
  | inr q ↦
      rw (eqb-suc k)
        (Leads-format fuel (suc k / 10) (String.◌∷◌ (digit (suc k % 10)) out) q (omega arith))
]

Leads-format_ℕ : (n : ℕ) → Leads (format_ℕ n)
unfolding format_ℕ
Leads-format_ℕ zero = record { first = 0; rest = ""; small = omega arith; shape = refl }
Leads-format_ℕ (suc n) =
    rw (eqb-suc n) (Leads-format (suc n) (suc n) "" (omega arith) (omega arith))

digits_only-scan : (s : String) → Leads s → digits_only s ≡ scan s 0
unfolding digits_only
digits_only-scan s l = rw l.shape refl

scan-format_ℕ : (n : ℕ) → scan (format_ℕ n) 0 ≡ some n
unfolding scan format_ℕ
scan-format_ℕ zero = refl
scan-format_ℕ (suc n) = rw (eqb-suc n) (scan-format (suc n) (suc n) "" (omega arith))

-- A number is read back as it was written.
digits_only-format_ℕ : (n : ℕ) → digits_only (format_ℕ n) ≡ some n
digits_only-format_ℕ n = digits_only-scan (format_ℕ n) (Leads-format_ℕ n) ∙ scan-format_ℕ n

-- A text that starts with a digit has no sign.
unsigned : (s : String) → Leads s → atoi s ≡ to_pos (digits_only s)
unfolding atoi
unsigned s l = rw (l.shape, code-digit l.first l.small) (ground (arith, l.small))

pub atoi-itoa : (i : ℤ) → IsInt64 i → atoi (itoa i) ≡ some i
unfolding itoa to_pos to_neg
atoi-itoa (pos n) h =
    unsigned (format_ℕ n) (Leads-format_ℕ n) ∙ rw (digits_only-format_ℕ n) (ground arith)
atoi-itoa (negsuc n) h = unfold atoi in rw (digits_only-format_ℕ (suc n)) (ground arith)

seventeen : itoa (pos 2147483647) ≡ "2147483647"
unfolding itoa
seventeen = refl

back : atoi "-120" ≡ some (negsuc 119)
unfolding atoi scan
back = refl
