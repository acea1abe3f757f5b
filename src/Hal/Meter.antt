-- ===== src/Hal/Meter.antt =====
-- extractMeterValueWh of internal/ocpp16hal/hal.go: the energy reading of a MeterValues message.
pub mod Reading
pub mod Last
use ocpphal_go.Prelude.{
  String, ◌||◌, Option, none, some, List, [], ◌∷◌, pos, Float, if◌then◌else◌, equal_fold, is_word,
}
use mathlib.Core.List.{reverse}

pub record SampledValue : Type 0 where
  pub value : String
  pub measurand : String
  pub unit : String

pub record MeterValue : Type 0 where
  pub sampled_value : List SampledValue

-- The first sample of the energy register, or else the given one.
unfoldable pub select : SampledValue → List SampledValue → SampledValue
select first [] = first
select first (sample ∷ rest) =
    if equal_fold sample.measurand "Energy.Active.Import.Register"
    then sample
    else select first rest

module _ {F : Type 0} ⦃f : Float F⦄ where
  -- A reading in Wh. ParseFloat of the trimmed text is the float's `parse`.
  unfoldable pub in_wh : SampledValue → F → F
  in_wh sample value =
      if is_word sample.unit "kwh" || is_word sample.unit "kilowatthour"
      then f.mul value (f.of_int (pos 1000))
      else value

  unfoldable pub read_sample : SampledValue → Option F
  unfolding in_wh
  read_sample sample = elim (f.parse sample.value) [ none ↦ none | some v ↦ some (in_wh sample v) ]

  unfoldable pub read_meter_value : List SampledValue → Option F
  unfolding select read_sample
  read_meter_value [] = none
  read_meter_value (first ∷ rest) = read_sample (select first (first ∷ rest))

  -- The loop runs from the last meter value to the first: its list is the reversed message.
  unfoldable pub extract_from : List MeterValue → Option F
  unfolding read_meter_value
  extract_from [] = none
  extract_from (mv ∷ rest) =
      let earlier = extract_from rest in
      elim (read_meter_value mv.sampled_value) [ none ↦ earlier | some v ↦ some v ]

  unfoldable pub extract_meter_value_wh : List MeterValue → Option F
  unfolding extract_from
  extract_meter_value_wh request = extract_from (reverse request)
