-- ===== src/Hal/Meter/Last.antt =====
-- Which reading a MeterValues message gives (extractMeterValueWh of internal/ocpp16hal/hal.go).
use mathlib.Core.List.{reverse, reverse-cons}
use ocpphal_go.Prelude.{
  ◌≡◌, ◌⊎◌, ◌↔◌, sym, All, refl, ap, ◌∙◌, Option, none, some, List, [], ◌∷◌, ◌++◌, Float,
  Option-cases, inl, inr,
}
use ocpphal_go.Hal.Meter.{MeterValue, read_meter_value, extract_from, extract_meter_value_wh}
use ocpphal_go.Hal.Meter.Reading.{Reads, read-Reads, Reads-read, read_none}

module _ {F : Type 0} ⦃f : Float F⦄ where
  -- Of two readings the later one, where there is one.
  abbrev later_or : Option F → Option F → Option F
  later_or (some v) earlier = some v
  later_or none earlier = earlier

  -- The last reading of a message, read from its first meter value to its last.
  abbrev last_reading : List MeterValue → Option F
  last_reading [] = none
  last_reading (mv ∷ rest) = later_or (last_reading rest) (read_meter_value mv.sampled_value)

  extract-append :
      (xs : List MeterValue) (mv : MeterValue)
      → extract_from (xs ++ mv ∷ [])
        ≡ later_or (extract_from xs) (read_meter_value mv.sampled_value)
  unfolding extract_from
  extract-append [] mv = elim (Option-cases (read_meter_value ⦃f = f⦄ mv.sampled_value)) [
    | inl e ↦ rw (e, extract_from) refl
    | inr (v, e) ↦ rw (e, extract_from) refl
  ]
  extract-append (x ∷ xs) mv = elim (Option-cases (read_meter_value ⦃f = f⦄ x.sampled_value)) [
    | inl e ↦ rw (e, extract_from) (extract-append xs mv)
    | inr (v, e) ↦ rw (e, extract_from) refl
  ]

  extract_last : (request : List MeterValue) → extract_meter_value_wh request ≡ last_reading request
  unfolding extract_meter_value_wh
  extract_last [] = refl
  extract_last (mv ∷ rest) = rw (reverse-cons mv rest) (
      extract-append (reverse rest) mv
      ∙ ap (λ r. later_or r (read_meter_value mv.sampled_value)) (extract_last rest))

module _ (F : Type 0) ⦃f : Float F⦄ where
  -- The last meter value with a reading.
  abbrev pub LastReading : List MeterValue → F → Type 0
  LastReading [] v = ⊥
  LastReading (mv ∷ rest) v =
      LastReading rest v ⊎ (All (λ m. (w : F) → ¬ Reads F m w) rest × Reads F mv v)

  last_none :
      (request : List MeterValue)
      → last_reading ⦃f = f⦄ request ≡ none
      → All (λ m. (w : F) → ¬ Reads F m w) request
  last_none [] h = tt
  last_none (mv ∷ rest) h = elim (Option-cases (last_reading ⦃f = f⦄ rest)) [
    | inl e ↦ (read_none F mv (rw e at h), last_none rest e)
    | inr (v, e) ↦ let z : ◌≡◌ {A = Option F} (some v) none = rw e at h in cc (z)
  ]

  none_last :
      (request : List MeterValue)
      → All (λ m. (w : F) → ¬ Reads F m w) request
      → last_reading ⦃f = f⦄ request ≡ none
  none_last [] h = refl
  none_last (mv ∷ rest) h =
      rw (none_last rest h.1) (elim (Option-cases (read_meter_value ⦃f = f⦄ mv.sampled_value)) [
        | inl e ↦ e
        | inr (v, e) ↦ absurd (h.0 v (read-Reads F mv.sampled_value v e))
      ])

  last-LastReading :
      (request : List MeterValue) (v : F) → last_reading request ≡ some v → LastReading request v
  last-LastReading [] v h = cc (h)
  last-LastReading (mv ∷ rest) v h = elim (Option-cases (last_reading ⦃f = f⦄ rest)) [
    | inl e ↦ inr (last_none rest e, read-Reads F mv.sampled_value v (rw e at h))
    | inr (w, e) ↦
        let z : ◌≡◌ {A = Option F} (some w) (some v) = rw e at h in
        inl (last-LastReading rest v (e ∙ z))
  ]

  LastReading-last :
      (request : List MeterValue) (v : F) → LastReading request v → last_reading request ≡ some v
  LastReading-last [] v h = elim h [ ]
  LastReading-last (mv ∷ rest) v (inl h) = rw (LastReading-last rest v h) refl
  LastReading-last (mv ∷ rest) v (inr (n, r)) =
      rw (none_last rest n) (Reads-read F mv.sampled_value v r)

module _ {F : Type 0} ⦃f : Float F⦄ where
  -- extractMeterValueWh gives a reading exactly when it is that of the last meter value in the message
  -- that has one: of its samples the first of the energy register counts, or the very first where there
  -- is none of it, and the number in it is taken times 1000 where the unit is kWh. A meter value without
  -- samples, or whose sample that counts holds no number, has no reading.
  pub extract_meter_value_wh_lem :
      (request : List MeterValue) (v : F)
      → extract_meter_value_wh request ≡ some v ↔ LastReading F request v
  extract_meter_value_wh_lem request v = (
    λ h. last-LastReading F request v (sym (extract_last request) ∙ h),
    λ h. extract_last request ∙ LastReading-last F request v h,
  )
