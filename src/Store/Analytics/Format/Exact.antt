-- ===== src/Store/Analytics/Format/Exact.antt =====
-- FormatDuration and PeakUsageTimes: what their texts say.
use ocpphal_go.Prelude.{
  All, zero, Option, none, some, ◌⊎◌, inl, inr, ◌∙◌, if◌then◌else◌, ap, subst, ℕ, suc, ◌+◌, ◌*◌,
  ◌≡◌, ◌≤◌, ◌<◌, arith, List, [], ◌∷◌, ltb, ◌↔◌,
}
use ocpphal_go.Store.Analytics.Format.{parts, max_count, hours_with}

-- The years, days, hours, minutes and seconds that a duration is printed with make up the number of
-- seconds again, with fewer than 365 days, 24 hours, 60 minutes and 60 seconds.
pub parts_lem :
    (n : ℕ)
    → let p = parts n in
      (p.years * 31536000 + p.days * 86400 + p.hours * 3600 + p.minutes * 60 + p.seconds ≡ n)
      × (p.days < 365)
      × (p.hours < 24)
      × (p.minutes < 60)
      × (p.seconds < 60)
unfolding parts
parts_lem n = (omega arith, omega arith, omega arith, omega arith, omega arith)

abbrev pub nth : ℕ → List ℕ → Option ℕ
nth i [] = none
nth zero (n ∷ ns) = some n
nth (suc i) (n ∷ ns) = nth i ns

abbrev pub Listed : ℕ → List ℕ → Type 0
Listed h [] = ⊥
Listed h (n ∷ ns) = (n ≡ h) ⊎ Listed h ns

max_count_bound :
    (most c : ℕ) (peak : List ℕ) → most ≤ c → All (λ n. n ≤ c) peak → max_count most peak ≤ c
unfolding max_count
max_count_bound most c [] h a = h
max_count_bound most c (n ∷ peak) h a =
    max_count_bound (if ltb most n then n else most) c peak (ground (arith, h, a.0)) a.1

max_count_above : (most : ℕ) (peak : List ℕ) → most ≤ max_count most peak
unfolding max_count
max_count_above most [] = omega arith
max_count_above most (n ∷ peak) =
    ground (arith, max_count_above (if ltb most n then n else most) peak)

max_count-All : (most : ℕ) (peak : List ℕ) → All (λ n. n ≤ max_count most peak) peak
unfolding max_count
max_count-All most [] = tt
max_count-All most (n ∷ peak) =
    let most' = if ltb most n then n else most in
    (ground (arith, max_count_above most' peak), max_count-All most' peak)

-- The hour stands at this place, counted from an hour on.
abbrev Stands : ℕ → ℕ → ℕ → List ℕ → Type 0
Stands most from h peak = (i : ℕ) × (from + i ≡ h) × (nth i peak ≡ some most)

Stands-cons :
    (most from h n : ℕ) (peak : List ℕ)
    → Stands most from h (n ∷ peak) ↔ (((from ≡ h) × (n ≡ most)) ⊎ Stands most (suc from) h peak)
Stands-cons most from h n peak = (apart, joined)
  where
    apart :
        Stands most from h (n ∷ peak) → ((from ≡ h) × (n ≡ most)) ⊎ Stands most (suc from) h peak
    apart (zero, e, q) = inl (omega arith, cc)
    apart (suc i, e, q) = inr (i, omega arith, q)

    joined :
        ((from ≡ h) × (n ≡ most)) ⊎ Stands most (suc from) h peak → Stands most from h (n ∷ peak)
    joined (inl (e, q)) = (0, omega arith, ap some q)
    joined (inr (i, e, q)) = (suc i, omega arith, q)

-- The hours whose count is `most`, from an hour on.
hours_with_lem :
    (most from h : ℕ) (peak : List ℕ)
    → Listed h (hours_with most from peak) ↔ Stands most from h peak
unfolding hours_with
hours_with_lem most from h [] = (λ x. absurd x, λ (i, e, n). cc)
hours_with_lem most from h (n ∷ peak) =
    ground (arith, hours_with_lem most (suc from) h peak, Stands-cons most from h n peak)

nth_bound :
    (h c : ℕ) (bound : ℕ) (peak : List ℕ)
    → nth h peak ≡ some c
    → All (λ n. n ≤ bound) peak
    → c ≤ bound
nth_bound h c bound [] e a = cc
nth_bound zero c bound (n ∷ peak) e a = ground (arith, e, a.0)
nth_bound (suc h) c bound (n ∷ peak) e a = nth_bound h c bound peak e a.1

-- The hours that the report names as the peak are exactly those whose count no hour's count exceeds,
-- for any list of counts.
pub peak_lem :
    (h : ℕ) (peak : List ℕ)
    → Listed h (hours_with (max_count 0 peak) 0 peak)
      ↔ ((c : ℕ) × (nth h peak ≡ some c) × All (λ n. n ≤ c) peak)
peak_lem h peak = (named, busiest)
  where
    most : ℕ
    most = max_count 0 peak

    named :
        Listed h (hours_with most 0 peak) → (c : ℕ) × (nth h peak ≡ some c) × All (λ n. n ≤ c) peak
    named x =
        let (i, e, q) = (hours_with_lem most 0 h peak).0 x in
        (most, subst (λ j. nth j peak ≡ some most) (omega arith) q, max_count-All 0 peak)

    busiest :
        (c : ℕ) × (nth h peak ≡ some c) × All (λ n. n ≤ c) peak → Listed h (hours_with most 0 peak)
    busiest (c, q, a) =
        let above = nth_bound h c most peak q (max_count-All 0 peak) in
        let below = max_count_bound 0 c peak (omega arith) a in
        let same : c ≡ most = omega arith in
        (hours_with_lem most 0 h peak).1 (h, omega arith, q ∙ ap some same)
