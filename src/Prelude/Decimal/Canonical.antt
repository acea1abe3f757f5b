-- ===== src/Prelude/Decimal/Canonical.antt =====
-- A positive decimal without a leading zero is the text of the number that it is read as.
use Prim.Native.Nat.{ℕ, zero, suc, ◌+◌, ◌-◌, ◌*◌, ◌/◌, ◌%◌, ◌≤◌, ◌<◌}
use Prim.Native.Char.{Char, code}
use Prim.Native.String.{String}
use mathlib.Core.Path.{◌≡◌, refl, ap, sym, ◌∙◌}
use mathlib.Core.Logic.{inl, inr}
use mathlib.Core.Bool.{true, false}
use mathlib.Core.Option.{Option, none, some}
use native.Mathlib.Omega.{arith}
use text.Mathlib.TextEquality.{Char-path}
use ocpphal_go.Prelude.Tests.{Bool-cases, eqb}
use ocpphal_go.Prelude.Int.{pos}
use ocpphal_go.Prelude.Text.{codes, all_digits, is_positive_decimal}
use ocpphal_go.Prelude.Decimal.{
  Nat-cases, digit, code-digit, format_digits, format_zero, format_ℕ, itoa, scan, digits_only,
  to_pos, atoi, eqb-suc,
}

-- Every code point is that of a digit.
abbrev Digits : String → Type 0
Digits String.[] = Unit
Digits (String.◌∷◌ c s) = (48 ≤ code c) × (code c ≤ 57) × Digits s

-- More fuel than the number makes no difference.
format_fuel :
    (fuel fuel' n : ℕ) (out : String)
    → n ≤ fuel
    → n ≤ fuel'
    → format_digits fuel n out ≡ format_digits fuel' n out
unfolding format_digits
format_fuel zero fuel' n out h h' =
    let e : n ≡ 0 = omega arith in rw e (sym (format_zero fuel' out))
format_fuel (suc fuel) zero n out h h' = let e : n ≡ 0 = omega arith in rw e refl
format_fuel (suc fuel) (suc fuel') n out h h' = elim (Bool-cases (eqb n 0)) [
  | inl e ↦ rw e refl
  | inr e ↦ rw e (
      format_fuel fuel fuel' (n / 10) (String.◌∷◌ (digit (n % 10)) out) (ground arith)
        (ground arith))
]

-- The last digit goes in front of what follows.
format_last :
    (v : ℕ) (out : String)
    → 0 < v
    → format_digits v v out ≡ format_digits (v / 10) (v / 10) (String.◌∷◌ (digit (v % 10)) out)
unfolding format_digits
format_last zero out p = absurd (omega arith)
format_last (suc k) out p = rw (eqb-suc k) (
    format_fuel k (suc k / 10) (suc k / 10) (String.◌∷◌ (digit (suc k % 10)) out) (omega arith)
      (omega arith))

-- One digit more at the end.
format_step :
    (n d : ℕ) (out : String)
    → d < 10
    → 0 < n * 10 + d
    → format_digits (n * 10 + d) (n * 10 + d) out ≡ format_digits n n (String.◌∷◌ (digit d) out)
format_step n d out h p =
    let q : (n * 10 + d) / 10 ≡ n = omega arith in
    let r : (n * 10 + d) % 10 ≡ d = omega arith in
    format_last (n * 10 + d) out p
    ∙ ap (λ k. format_digits k k (String.◌∷◌ (digit ((n * 10 + d) % 10)) out)) q
    ∙ ap (λ k. format_digits n n (String.◌∷◌ (digit k) out)) r

digit-code : (c : Char) → 48 ≤ code c → code c ≤ 57 → digit (code c - 48) ≡ c
digit-code c l u =
    Char-path (digit (code c - 48)) c (code-digit (code c - 48) (omega arith) ∙ omega arith)

scan-Digits :
    (c : Char) (s : String) (n : ℕ)
    → 48 ≤ code c
    → code c ≤ 57
    → scan (String.◌∷◌ c s) n ≡ scan s (n * 10 + (code c - 48))
unfolding scan
scan-Digits c s n l u = ground arith

-- What follows a number that is read is what its text ends with.
format-scan :
    (s : String) (n v : ℕ)
    → Digits s
    → 0 < n
    → scan s n ≡ some v
    → format_digits v v "" ≡ format_digits n n s
unfolding scan
format-scan String.[] n v h p e = let q : n ≡ v = cc in ap (λ k. format_digits k k "") (sym q)
format-scan (String.◌∷◌ c s) n v h p e =
    let d = code c - 48 in
    let small : d < 10 = omega arith in
    let more : 0 < n * 10 + d = omega arith in
    format-scan s (n * 10 + d) v h.2 more (sym (scan-Digits c s n h.0 h.1) ∙ e)
    ∙ format_step n d s small more
    ∙ ap (λ x. format_digits n n (String.◌∷◌ x s)) (digit-code c h.0 h.1)

scan_grows : (s : String) (n v : ℕ) → Digits s → scan s n ≡ some v → n ≤ v
unfolding scan
scan_grows String.[] n v h e = let q : n ≡ v = cc in omega arith
scan_grows (String.◌∷◌ c s) n v h e =
    let longer =
      scan_grows s (n * 10 + (code c - 48)) v h.2 (sym (scan-Digits c s n h.0 h.1) ∙ e) in
    omega arith

-- The text is that of the number.
itoa-scan :
    (c : Char) (s : String) (v : ℕ)
    → 49 ≤ code c
    → code c ≤ 57
    → Digits s
    → scan (String.◌∷◌ c s) 0 ≡ some v
    → (0 < v) × (itoa (pos v) ≡ String.◌∷◌ c s)
unfolding itoa format_ℕ
itoa-scan c s v l u h e =
    let d = code c - 48 in
    let low : 48 ≤ code c = omega arith in
    let read : scan s d ≡ some v = ap (scan s) (omega arith) ∙ sym (scan-Digits c s 0 low u) ∙ e in
    let positive : 0 < d = omega arith in
    let above = scan_grows s d v h read in
    let q : d / 10 ≡ 0 = omega arith in
    let r : d % 10 ≡ d = omega arith in
    let some_digits : eqb v 0 ≡ false = ground arith in
    let written : format_digits v v "" ≡ String.◌∷◌ c s =
      format-scan s d v h positive read
      ∙ format_last d s positive
      ∙ ap (λ k. format_digits k k (String.◌∷◌ (digit (d % 10)) s)) q
      ∙ format_zero 0 (String.◌∷◌ (digit (d % 10)) s)
      ∙ ap (λ k. String.◌∷◌ (digit k) s) r
      ∙ ap (λ x. String.◌∷◌ x s) (digit-code c low u) in
    (omega arith, rw some_digits written)

Digits-codes : (s : String) → all_digits (codes s) ≡ true → Digits s
Digits-codes String.[] h = tt
Digits-codes (String.◌∷◌ c s) h =
    (ground (arith, h), ground (arith, h), Digits-codes s (ground (arith, h)))

to_pos-some : (o : Option ℕ) (v : ℕ) → to_pos o ≡ some (pos v) → o ≡ some v
unfolding to_pos
to_pos-some none v h = cc
to_pos-some (some n) v h = ground (arith, h)

-- A text that the expression ^[1-9][0-9]*$ matches and that is read as a number is the text of that
-- number, which is positive.
pub itoa-canonical :
    (raw : String) (v : ℕ)
    → is_positive_decimal (codes raw) ≡ true
    → atoi raw ≡ some (pos v)
    → (0 < v) × (itoa (pos v) ≡ raw)
unfolding atoi digits_only
itoa-canonical String.[] v h e = cc
itoa-canonical (String.◌∷◌ c s) v h e =
    let l : 49 ≤ code c = ground (arith, h) in
    let u : code c ≤ 57 = ground (arith, h) in
    let digits : all_digits (codes s) ≡ true = ground (arith, h) in
    itoa-scan c s v l u (Digits-codes s digits)
      (to_pos-some (scan (String.◌∷◌ c s) 0) v (ground (arith, e, l, u)))

decimal-format_digits :
    (fuel n : ℕ) (out : String)
    → 0 < n
    → n ≤ fuel
    → all_digits (codes out) ≡ true
    → is_positive_decimal (codes (format_digits fuel n out)) ≡ true
unfolding format_digits
decimal-format_digits zero n out p h d = absurd (omega arith)
decimal-format_digits (suc fuel) zero out p h d = absurd (omega arith)
decimal-format_digits (suc fuel) (suc k) out p h d =
    let low = suc k % 10 in
    let is_code : code (digit low) ≡ 48 + low = code-digit low (omega arith) in
    rw (eqb-suc k) (elim (Nat-cases (suc k / 10)) [
      | inl e ↦ rw (e, format_zero fuel (String.◌∷◌ (digit low) out)) (ground (arith, is_code, d))
      | inr q ↦
          decimal-format_digits fuel (suc k / 10) (String.◌∷◌ (digit low) out) q (omega arith)
            (ground (arith, is_code, d))
    ])

-- The text of a positive number matches the expression.
pub decimal-itoa : (n : ℕ) → 0 < n → is_positive_decimal (codes (itoa (pos n))) ≡ true
unfolding itoa format_ℕ
decimal-itoa n p =
    let e : eqb n 0 ≡ false = ground (arith, p) in
    rw e (decimal-format_digits n n "" p (omega arith) refl)
