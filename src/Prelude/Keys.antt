-- ===== src/Prelude/Keys.antt =====
-- Go's comparable types: `==` on them, and what a map may use for a key.
use Prim.Native.Nat.{ℕ}
use Prim.Native.String.{String}
use mathlib.Core.Bool.{Bool, true, false}
use mathlib.Core.Path.{◌≡◌}
use native.Mathlib.Decide.{ℕ_discrete}
use native.Mathlib.Omega.{arith}
use text.Mathlib.Text.{◌==◌ as str_eq}
use text.Mathlib.TextEquality.{eq_iff}
use ocpphal_go.Prelude.Int.{ℤ, ℤ_discrete}

pub record Key (K : Type 0) : Type 0 where
  pub dec : Discrete K

infix 50 ◌==◌ ◌!=◌
abbrev pub ◌==◌ : {K : Type 0} ⦃e : Key K⦄ → K → K → Bool
◌==◌ ⦃e⦄ a b = elim (e.dec a b) [ yes _ ↦ true | no _ ↦ false ]

abbrev pub ◌!=◌ : {K : Type 0} ⦃e : Key K⦄ → K → K → Bool
◌!=◌ ⦃e⦄ a b = elim (e.dec a b) [ yes _ ↦ false | no _ ↦ true ]

decide_text : (a b : String) (t : Bool) → str_eq a b ≡ t → Dec (a ≡ b)
decide_text a b true h = yes ((eq_iff a b).0 h)
decide_text a b false h = no (λ e. ground (arith, eq_iff a b))

unfoldable pub String_discrete : Discrete String
unfolding decide_text
String_discrete a b = decide_text a b (str_eq a b) (λ i. str_eq a b)

instance abbrev pub ℕ_key : Key ℕ
ℕ_key = record { dec = ℕ_discrete }

instance abbrev pub ℤ_key : Key ℤ
ℤ_key = record { dec = ℤ_discrete }

instance abbrev pub String_key : Key String
String_key = record { dec = String_discrete }
