-- ===== src/Store/Analytics/Totals.antt =====
-- ChargerAnalytics of the MemoryStore: what the totals count.
use ocpphal_go.Prelude.{
  ℕ, suc, ◌+◌, ◌≡◌, refl, ◌∙◌, arith, String, Bool, true, false, not, ◌&&◌, ◌||◌, some, [], ◌∷◌, ℤ,
  Float, GoMap, get, put, Distinct, Entries, ltb, if◌then◌else◌, String_key, ℤ_key,
}
use ocpphal_go.Store.Types.{Time, Transaction}
use ocpphal_go.Store.Memory.{MemoryStore}
use ocpphal_go.Store.Analytics.{
  AnalyticsInput, AnalyticsOutput, ChargerAnalytics, Sums, is_counted, add_up, add_transaction,
  no_sums, add_charger, empty_output, window, compute_memory_analytics, charger_ids, or_asked,
  report, charger_analytics,
}
use ocpphal_go.Store.Analytics.Asked.{
  times, is_asked, or_asked-Distinct, InPlace, charger_ids-Distinct, charger_ids-has, chosen,
}

-- The sum over the chargers.
abbrev sum_over : (String → ℕ) → GoMap String Bool → ℕ
sum_over n [] = 0
sum_over n ((id, _) ∷ ids) = n id + sum_over n ids

abbrev pub given : String → Time → Time → AnalyticsInput
given asked start end = record { charger_id = asked; start_time = some start; end_time = some end }

sum-zero : (ids : GoMap String Bool) → sum_over (λ id. 0) ids ≡ 0
sum-zero [] = refl
sum-zero (_ ∷ ids) = omega (arith, sum-zero ids)

module _ {F : Type 0} ⦃f : Float F⦄ where
  -- How many transactions pass the test.
  abbrev pub count_where : (Transaction F → Bool) → GoMap ℤ (Transaction F) → ℕ
  count_where test [] = 0
  count_where test ((_, tx) ∷ rest) =
      if test tx then suc (count_where test rest) else count_where test rest

  abbrev pub in_window : Time → Time → Transaction F → Bool
  in_window start end tx = not (ltb tx.start_time start || ltb end tx.start_time)

  counted_step :
      (b : Bool) (tx : Transaction F) (sums : Sums F) (n : ℕ)
      → (if b then add_transaction tx sums else sums).count + n
        ≡ sums.count + (if b then suc n else n)
  counted_step true tx sums n = omega arith
  counted_step false tx sums n = refl

  add_up-count :
      (c : String) (start end : Time) (txs : GoMap ℤ (Transaction F)) (sums : Sums F)
      → (add_up c start end txs sums).count ≡ sums.count + count_where (is_counted c start end) txs
  unfolding add_up
  add_up-count c start end [] sums = omega arith
  add_up-count c start end ((_, tx) ∷ rest) sums =
      let b = is_counted c start end tx in
      add_up-count c start end rest (if b then add_transaction tx sums else sums)
      ∙ counted_step b tx sums (count_where (is_counted c start end) rest)

  computed_count :
      (id asked : String) (start end now : Time) (txs : GoMap ℤ (Transaction F))
      → (compute_memory_analytics id (given asked start end) txs now).total_transactions
        ≡ count_where (is_counted id start end) txs
  unfolding compute_memory_analytics window
  computed_count id asked start end now txs = omega (arith, add_up-count id start end txs no_sums)

  report-total :
      (asked : String) (start end now : Time) (txs : GoMap ℤ (Transaction F))
      (ids : GoMap String Bool) (m : GoMap String (ChargerAnalytics F)) (output : AnalyticsOutput F)
      → (report ids (given asked start end) txs now m output).1.total_transactions
        ≡ output.total_transactions + sum_over (λ id. count_where (is_counted id start end) txs) ids
  unfolding report
  report-total asked start end now txs [] m output = omega arith
  report-total asked start end now txs ((id, _) ∷ ids) m output =
      let a = compute_memory_analytics id (given asked start end) txs now in
      omega (
        arith,
        report-total asked start end now txs ids (put id a m) (add_charger a output),
        computed_count id asked start end now txs,
      )

  -- One more transaction adds one to the sum exactly when it is in the window and of a charger in the map.
  sum-cons :
      (start end : Time) (tx : Transaction F) (rest : GoMap ℤ (Transaction F)) (k : ℤ)
      (ids : GoMap String Bool)
      → Distinct ids
      → sum_over (λ id. count_where (is_counted id start end) ((k, tx) ∷ rest)) ids
        ≡ (if in_window start end tx then times (get tx.charger_id ids) else 0)
          + sum_over (λ id. count_where (is_counted id start end) rest) ids
  unfolding get
  sum-cons start end tx rest k [] d = ground arith
  sum-cons start end tx rest k ((id, b) ∷ ids) d =
      ground (arith, sum-cons start end tx rest k ids d.1, d.0)

  sum_all :
      (asked : String) (start end : Time) (txs : GoMap ℤ (Transaction F)) (ids : GoMap String Bool)
      → Distinct ids
      → Entries (λ _ tx. InPlace asked ids tx) txs
      → sum_over (λ id. count_where (is_counted id start end) txs) ids
        ≡ count_where (λ tx. is_asked asked tx && in_window start end tx) txs
  unfolding InPlace
  sum_all asked start end [] ids d h = sum-zero ids
  sum_all asked start end ((k, tx) ∷ rest) ids d h =
      ground
        (arith, sum-cons start end tx rest k ids d, sum_all asked start end rest ids d h.1, h.0)

  -- A report for a window that the request gives counts, over all its chargers together, every
  -- transaction of a charger that is asked for that starts in the window exactly once, and no other.
  pub totals_lem :
      (s : MemoryStore F) (now start end : Time) (asked : String)
      → (charger_analytics s now (given asked start end)).total_transactions
        ≡ count_where (λ tx. is_asked asked tx && in_window start end tx) s.transactions
  unfolding charger_analytics
  totals_lem s now start end asked =
      let txs = s.transactions in
      let ids = or_asked asked (charger_ids asked txs []) in
      let distinct =
        or_asked-Distinct asked (charger_ids asked txs []) (charger_ids-Distinct asked txs [] tt) in
      omega (
        arith,
        report-total asked start end now txs ids [] empty_output,
        sum_all asked start end txs ids distinct
            (chosen asked txs txs (charger_ids-has asked txs [])),
      )
