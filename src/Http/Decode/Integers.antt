-- ===== src/Http/Decode/Integers.antt =====
-- flexibleInt reads every 64-bit integer that is written as a number or in quotes.
use ocpphal_go.Prelude.{
  ◌≡◌, ap, ◌∙◌, some, ℤ, itoa, atoi, atoi-itoa, IsInt64, trim_space-itoa, number, str,
}
use ocpphal_go.Http.Decode.{flexible_int}

-- A 64-bit integer is read as itself, whether it is written as a JSON number or as a JSON string.
pub flexible_int-itoa :
    (i : ℤ)
    → IsInt64 i
    → (flexible_int (number (itoa i)) ≡ some i) × (flexible_int (str (itoa i)) ≡ some i)
unfolding flexible_int
flexible_int-itoa i h = (atoi-itoa i h, ap atoi (trim_space-itoa i) ∙ atoi-itoa i h)
