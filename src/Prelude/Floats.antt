-- ===== src/Prelude/Floats.antt =====
-- float64, taken as a type with the operations that the program uses. Nothing is assumed of them
-- but where a theorem names a hypothesis.
use Prim.Native.Nat.{ℕ}
use Prim.Native.String.{String}
use mathlib.Core.Bool.{Bool}
use mathlib.Core.Option.{Option}
use ocpphal_go.Prelude.Int.{ℤ}

pub record Float (F : Type 0) : Type 0 where
  pub of_int : ℤ → F
  pub add : F → F → F
  pub sub : F → F → F
  pub mul : F → F → F
  pub div : F → F → F
  -- <, <= and ==
  pub flt : F → F → Bool
  pub fle : F → F → Bool
  pub feq : F → F → Bool
  -- strconv.ParseFloat(strings.TrimSpace(s), 64), with `none` for its error
  pub parse : String → Option F
  -- time.Duration.Seconds, of nanoseconds
  pub seconds : ℕ → F
  -- strconv.FormatFloat(v, 'f', -1, 64)
  pub format : F → String
  -- neither NaN nor an infinity
  pub is_finite : F → Bool
  -- math.Round, and the conversion to int64
  pub round : F → F
  pub to_int : F → ℤ
