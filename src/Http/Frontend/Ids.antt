-- ===== src/Http/Frontend/Ids.antt =====
-- parseFrontendTransactionID accepts exactly the texts of the transaction ids.
use ocpphal_go.Prelude.{
  ◌≡◌, refl, subst, arith, ℕ, ◌^◌, ◌<◌, ◌↔◌, String, Bool, true, false, Option, none, some, ℤ, pos,
  negsuc, itoa, atoi, atoi-itoa, codes, is_positive_decimal, itoa-canonical, decimal-itoa,
  if◌then◌else◌,
}
use ocpphal_go.Http.Frontend.{in_range, parse_frontend_transaction_id}

read_back :
    (n : ℕ) → 0 < n → n < 2 ^ 31 → parse_frontend_transaction_id (itoa (pos n)) ≡ some (pos n)
unfolding parse_frontend_transaction_id
read_back n p h = rw (decimal-itoa n p, atoi-itoa (pos n) (omega arith)) (ground (arith, p, h))

in_range_some :
    (o : Option ℤ) (n : ℕ) → in_range o ≡ some (pos n) → (o ≡ some (pos n)) × (n < 2 ^ 31)
in_range_some none n h = cc
in_range_some (some (pos m)) n h = ground (arith, h)
in_range_some (some (negsuc m)) n h = cc

gated :
    (b : Bool) (o : Option ℤ) (n : ℕ)
    → (if b then in_range o else none) ≡ some (pos n)
    → (b ≡ true) × (o ≡ some (pos n)) × (n < 2 ^ 31)
gated true o n h = let (e, l) = in_range_some o n h in (refl, e, l)
gated false o n h = cc

-- A text is accepted as the transaction id `n` exactly when it is the decimal text of `n`, without sign,
-- space or leading zero, and `n` is positive and below 2^31.
pub parse_frontend_transaction_id_lem :
    (raw : String) (n : ℕ)
    → (parse_frontend_transaction_id raw ≡ some (pos n))
      ↔ ((0 < n) × (n < 2 ^ 31) × (itoa (pos n) ≡ raw))
unfolding parse_frontend_transaction_id
parse_frontend_transaction_id_lem raw n = (
  accepted,
  λ (p, l, e). subst (λ s. parse_frontend_transaction_id s ≡ some (pos n)) e (read_back n p l),
)
  where
    accepted :
        parse_frontend_transaction_id raw ≡ some (pos n)
        → (0 < n) × (n < 2 ^ 31) × (itoa (pos n) ≡ raw)
    accepted h =
        let (matches, read, l) = gated (is_positive_decimal (codes raw)) (atoi raw) n h in
        let (p, e) = itoa-canonical raw n matches read in (p, l, e)
