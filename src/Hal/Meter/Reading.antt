-- ===== src/Hal/Meter/Reading.antt =====
-- What extractMeterValueWh of internal/ocpp16hal/hal.go reads from a meter value, and from which of its
-- samples.
use ocpphal_go.Prelude.{
  ◌≡◌, ◌⊎◌, subst, arith, sym, All, Bool, true, false, pos, equal_fold, is_word, Bool-cases, refl,
  ap, ◌∙◌, none, some, List, [], ◌∷◌, Float, Option-cases, inl, inr,
}
use ocpphal_go.Hal.Meter.{SampledValue, select, in_wh, read_sample, MeterValue, read_meter_value}

abbrev pub is_energy : SampledValue → Bool
is_energy sample = equal_fold sample.measurand "Energy.Active.Import.Register"

-- The first sample of the energy register.
abbrev pub FirstEnergy : List SampledValue → SampledValue → Type 0
FirstEnergy [] s = ⊥
FirstEnergy (x ∷ xs) s =
    ((is_energy x ≡ true) × (s ≡ x)) ⊎ ((is_energy x ≡ false) × FirstEnergy xs s)

-- The sample that counts: the first of the energy register, or the very first where there is none of
-- it.
abbrev pub Counts : List SampledValue → SampledValue → Type 0
Counts [] s = ⊥
Counts (x ∷ xs) s = FirstEnergy (x ∷ xs) s ⊎ (All (λ y. is_energy y ≡ false) (x ∷ xs) × (s ≡ x))

select_lem :
    (first : SampledValue) (xs : List SampledValue)
    → FirstEnergy xs (select first xs)
      ⊎ (All (λ y. is_energy y ≡ false) xs × (select first xs ≡ first))
unfolding select
select_lem first [] = inr (tt, refl)
select_lem first (x ∷ xs) = elim (Bool-cases (is_energy x)) [
  | inl b ↦ rw (b, select) (inl (inl (refl, refl)))
  | inr b ↦ elim (select_lem first xs) [
    | inl h ↦ rw (b, select) (inl (inr (refl, h)))
    | inr (n, e) ↦ rw (b, select) (inr ((refl, n), e))
  ]
]

select-FirstEnergy :
    (first : SampledValue) (xs : List SampledValue) (s : SampledValue)
    → FirstEnergy xs s
    → select first xs ≡ s
unfolding select
select-FirstEnergy first [] s h = elim h [ ]
select-FirstEnergy first (x ∷ xs) s (inl (b, e)) = rw (b, select) (sym e)
select-FirstEnergy first (x ∷ xs) s (inr (b, h)) = rw (b, select) (select-FirstEnergy first xs s h)

select-All :
    (first : SampledValue) (xs : List SampledValue)
    → All (λ y. is_energy y ≡ false) xs
    → select first xs ≡ first
unfolding select
select-All first [] h = refl
select-All first (x ∷ xs) h = rw (h.0, select) (select-All first xs h.1)

select-Counts :
    (first : SampledValue) (rest : List SampledValue)
    → Counts (first ∷ rest) (select first (first ∷ rest))
select-Counts first rest = elim (select_lem first (first ∷ rest)) [
  | inl h ↦ inl h
  | inr (n, e) ↦ inr (n, e)
]

Counts-select :
    (first : SampledValue) (rest : List SampledValue) (s : SampledValue)
    → Counts (first ∷ rest) s
    → select first (first ∷ rest) ≡ s
Counts-select first rest s (inl h) = select-FirstEnergy first (first ∷ rest) s h
Counts-select first rest s (inr (n, e)) = select-All first (first ∷ rest) n ∙ sym e

module _ (F : Type 0) ⦃f : Float F⦄ where
  -- The reading of a meter value in Wh: the number in the sample that counts, times 1000 where its unit
  -- is kWh.
  abbrev pub Reads : MeterValue → F → Type 0
  Reads mv v =
      (s : SampledValue) × (x : F) × Counts mv.sampled_value s
      × (f.parse s.value ≡ some x)
      × ((((is_word s.unit "kwh" ≡ true) ⊎ (is_word s.unit "kilowatthour" ≡ true))
            × (v ≡ f.mul x (f.of_int (pos 1000))))
          ⊎ ((is_word s.unit "kwh" ≡ false) × (is_word s.unit "kilowatthour" ≡ false) × (v ≡ x)))

  abbrev Converts : SampledValue → F → F → Type 0
  Converts s x v =
      (((is_word s.unit "kwh" ≡ true) ⊎ (is_word s.unit "kilowatthour" ≡ true))
        × (v ≡ f.mul x (f.of_int (pos 1000))))
      ⊎ ((is_word s.unit "kwh" ≡ false) × (is_word s.unit "kilowatthour" ≡ false) × (v ≡ x))

  in_wh-Converts : (s : SampledValue) (x : F) → Converts s x (in_wh s x)
  unfolding in_wh
  in_wh-Converts s x = elim (Bool-cases (is_word s.unit "kwh")) [
    | inl a ↦ rw (a, in_wh) (inl (inl refl, refl))
    | inr a ↦ elim (Bool-cases (is_word s.unit "kilowatthour")) [
      | inl b ↦ rw (a, b, in_wh) (inl (inr refl, refl))
      | inr b ↦ rw (a, b, in_wh) (inr (refl, refl, refl))
    ]
  ]

  Converts-in_wh : (s : SampledValue) (x v : F) → Converts s x v → in_wh s x ≡ v
  unfolding in_wh
  Converts-in_wh s x v (inl (inl a, e)) = rw (a, in_wh) (sym e)
  Converts-in_wh s x v (inl (inr a, e)) = ground (arith, a, e)
  Converts-in_wh s x v (inr (a, b, e)) = rw (a, b, in_wh) (sym e)

  sample-Converts :
      (s : SampledValue) (v : F)
      → read_sample s ≡ some v
      → (x : F) × (f.parse s.value ≡ some x) × Converts s x v
  unfolding read_sample
  sample-Converts s v h = elim (Option-cases (f.parse s.value)) [
    | inl e ↦ cc (h, e)
    | inr (x, e) ↦
        let r : in_wh s x ≡ v = cc (h, e) in (x, e, subst (Converts s x) r (in_wh-Converts s x))
  ]

  Converts-sample :
      (s : SampledValue) (x v : F)
      → f.parse s.value ≡ some x
      → Converts s x v
      → read_sample s ≡ some v
  unfolding read_sample
  Converts-sample s x v e u = rw (e, read_sample) (ap some (Converts-in_wh s x v u))

  read_first :
      (first : SampledValue) (rest : List SampledValue)
      → read_meter_value (first ∷ rest) ≡ read_sample ⦃f = f⦄ (select first (first ∷ rest))
  unfolding read_meter_value
  read_first first rest = refl

  read_empty : read_meter_value ⦃f = f⦄ [] ≡ none
  unfolding read_meter_value
  read_empty = refl

  pub read-Reads :
      (xs : List SampledValue) (v : F)
      → read_meter_value xs ≡ some v
      → Reads (record { sampled_value = xs }) v
  read-Reads [] v h = cc (h, read_empty)
  read-Reads (first ∷ rest) v h =
      let s = select first (first ∷ rest) in
      let (x, e, u) = sample-Converts s v (sym (read_first first rest) ∙ h) in
      (s, x, select-Counts first rest, e, u)

  pub Reads-read :
      (xs : List SampledValue) (v : F)
      → Reads (record { sampled_value = xs }) v
      → read_meter_value xs ≡ some v
  Reads-read [] v (s, x, c, e, u) = elim c [ ]
  Reads-read (first ∷ rest) v (s, x, c, e, u) =
      read_first first rest ∙ rw (Counts-select first rest s c) (Converts-sample s x v e u)

  -- No reading.
  pub read_none :
      (mv : MeterValue) → read_meter_value ⦃f = f⦄ mv.sampled_value ≡ none → (w : F) → ¬ Reads mv w
  read_none mv h w r = cc (Reads-read mv.sampled_value w r, h)
