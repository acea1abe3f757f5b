-- ===== src/Store/Analytics.antt =====
-- internal/store/analytics_memory.go and analytics_types.go: the report on the chargers' use. `now` is
-- the clock, which stands still during a report.
pub mod Format
pub mod Asked
pub mod Totals
use ocpphal_go.Prelude.{
  ℕ, suc, ◌+◌, ◌-◌, ◌*◌, ◌/◌, ◌%◌, ◌^◌, String, Bool, true, false, not, ◌&&◌, ◌||◌, Option, none,
  some, List, [], ◌∷◌, ℤ, pos, negsuc, Float, ltb, leb, eqb, if◌then◌else◌, itoa, GoMap, get, put,
  String_key, ◌==◌, ◌!=◌, ◌<>◌, sort_strings,
}
use ocpphal_go.Store.Types.{Time, Transaction}
use ocpphal_go.Store.Memory.{MemoryStore}
use Format.{bump, hour_of, no_hours, format_duration, peak_usage_times}

pub record AnalyticsInput : Type 0 where
  pub charger_id : String
  pub start_time : Option Time
  pub end_time : Option Time

pub record ChargerAnalytics (F : Type 0) : Type 0 where
  pub charger_id : String
  pub timestamp : Time
  pub total_uptime : String
  pub uptime_percentage : F
  pub total_transactions : ℕ
  pub total_electricity_used_kwh : F
  pub occupancy_rate_percentage : F
  pub average_session_duration : String
  pub peak_usage_times : String
  pub total_time_occupied : String
  pub total_time_occupied_seconds : F
  pub total_possible_seconds : F
  pub total_uptime_seconds : F

pub record AnalyticsOutput (F : Type 0) : Type 0 where
  pub analytics : Option (GoMap String (ChargerAnalytics F))
  pub total_uptime : String
  pub total_transactions : ℕ
  pub total_electricity_used_kwh : F
  pub total_time_occupied : String
  pub total_time_occupied_seconds : F
  pub total_uptime_seconds : F

-- What the loop over the transactions adds up.
pub record Sums (F : Type 0) : Type 0 where
  pub peak : List ℕ
  pub count : ℕ
  pub total_kwh : F
  pub occupied_seconds : F

-- The loop that looks for the first start and the last end.
abbrev pub earlier : Option Time → Time → Option Time
earlier none t = some t
earlier (some m) t = if ltb t m then some t else some m

abbrev pub later_of : Option Time → Time → Option Time
later_of none t = some t
later_of (some m) t = if ltb m t then some t else some m

abbrev pub time_or : Option Time → Option Time → Time → Time
time_or (some t) _ now = t
time_or none (some t) now = t
time_or none none now = now

abbrev pub is_all : String → Bool
is_all charger_id = charger_id == "" || charger_id == "all" || charger_id == "cumulative"

-- The charger that is asked for by its id is there even without a transaction.
abbrev pub or_asked : String → GoMap String Bool → GoMap String Bool
or_asked asked [] = if is_all asked then [] else (asked, true) ∷ []
or_asked asked (id ∷ ids) = id ∷ ids

module _ {F : Type 0} ⦃f : Float F⦄ where
  abbrev pub end_of : Transaction F → Time
  end_of tx = elim tx.stop_time [ none ↦ tx.start_time | some t ↦ t ]

  unfoldable pub bounds :
      String → Option Time → Option Time → GoMap ℤ (Transaction F) → Option Time × Option Time
  bounds charger_id min_time max_time [] = (min_time, max_time)
  bounds charger_id min_time max_time ((_, tx) ∷ rest) =
      let without = bounds charger_id min_time max_time rest in
      let with_tx =
        bounds charger_id (earlier min_time tx.start_time) (later_of max_time (end_of tx)) rest in
      if tx.charger_id != charger_id then without else with_tx

  -- From when to when the report goes.
  unfoldable pub window : String → AnalyticsInput → GoMap ℤ (Transaction F) → Time → Time × Time
  unfolding bounds
  window charger_id input transactions now =
      let (min_time, max_time) = bounds charger_id none none transactions in
      (time_or input.start_time min_time now, time_or input.end_time max_time now)

  -- `b.Sub(a).Seconds()`, for a duration that 64 bits hold
  abbrev pub seconds_between : Time → Time → F
  seconds_between a b =
      if leb a b then f.seconds (b - a) else f.sub (f.of_int (pos 0)) (f.seconds (a - b))

  abbrev pub no_sums : Sums F
  no_sums = record {
    peak = no_hours;
    count = 0;
    total_kwh = f.of_int (pos 0);
    occupied_seconds = f.of_int (pos 0);
  }

  abbrev pub add_if : Option F → F → F
  add_if none total = total
  add_if (some x) total = f.add total x

  abbrev pub occupied : Transaction F → Option F
  occupied tx = elim tx.stop_time [ none ↦ none | some t ↦ some (seconds_between tx.start_time t) ]

  abbrev pub is_counted : String → Time → Time → Transaction F → Bool
  is_counted charger_id start end tx =
      tx.charger_id == charger_id && not (ltb tx.start_time start || ltb end tx.start_time)

  abbrev pub add_transaction : Transaction F → Sums F → Sums F
  add_transaction tx sums = record {
    peak = bump (hour_of tx.start_time) sums.peak;
    count = suc sums.count;
    total_kwh = add_if tx.total_consumption sums.total_kwh;
    occupied_seconds = add_if (occupied tx) sums.occupied_seconds;
  }

  unfoldable pub add_up : String → Time → Time → GoMap ℤ (Transaction F) → Sums F → Sums F
  add_up charger_id start end [] sums = sums
  add_up charger_id start end ((_, tx) ∷ rest) sums =
      add_up charger_id start end rest
        (if is_counted charger_id start end tx then add_transaction tx sums else sums)

  abbrev pub round3 : F → F
  round3 v = f.div (f.round (f.mul v (f.of_int (pos 1000)))) (f.of_int (pos 1000))

  unfoldable pub compute_memory_analytics :
      String → AnalyticsInput → GoMap ℤ (Transaction F) → Time → ChargerAnalytics F
  unfolding window add_up format_duration peak_usage_times
  compute_memory_analytics charger_id input transactions now =
      let (start, end) = window charger_id input transactions now in
      let none_at_all = f.of_int (pos 0) in
      let total_possible = if leb start end then f.seconds (end - start) else none_at_all in
      let sums = add_up charger_id start end transactions no_sums in
      record {
        charger_id = charger_id;
        timestamp = now;
        total_uptime = format_duration none_at_all;
        uptime_percentage = none_at_all;
        total_transactions = sums.count;
        total_electricity_used_kwh = sums.total_kwh;
        occupancy_rate_percentage =
            if f.flt none_at_all total_possible && f.flt none_at_all sums.occupied_seconds
            then round3 (f.mul (f.div sums.occupied_seconds total_possible) (f.of_int (pos 100)))
            else none_at_all;
        average_session_duration = format_duration (
            if ltb 0 sums.count
            then f.div sums.occupied_seconds (f.of_int (pos sums.count))
            else none_at_all);
        peak_usage_times = peak_usage_times sums.peak;
        total_time_occupied = format_duration sums.occupied_seconds;
        total_time_occupied_seconds = sums.occupied_seconds;
        total_possible_seconds = total_possible;
        total_uptime_seconds = none_at_all;
      }

  -- The chargers of the transactions that are asked for.
  unfoldable pub charger_ids :
      String → GoMap ℤ (Transaction F) → GoMap String Bool → GoMap String Bool
  charger_ids asked [] ids = ids
  charger_ids asked ((_, tx) ∷ rest) ids =
      charger_ids asked rest
        (if is_all asked || tx.charger_id == asked then put tx.charger_id true ids else ids)

  abbrev pub empty_output : AnalyticsOutput F
  empty_output = record {
    analytics = none;
    total_uptime = "";
    total_transactions = 0;
    total_electricity_used_kwh = f.of_int (pos 0);
    total_time_occupied = "";
    total_time_occupied_seconds = f.of_int (pos 0);
    total_uptime_seconds = f.of_int (pos 0);
  }

  abbrev pub add_charger : ChargerAnalytics F → AnalyticsOutput F → AnalyticsOutput F
  add_charger a output = record output {
    total_transactions = output.total_transactions + a.total_transactions;
    total_electricity_used_kwh =
        f.add output.total_electricity_used_kwh a.total_electricity_used_kwh;
    total_time_occupied_seconds =
        f.add output.total_time_occupied_seconds a.total_time_occupied_seconds;
    total_uptime_seconds = f.add output.total_uptime_seconds a.total_uptime_seconds;
  }

  -- The loop over the chargers: the reports and the totals.
  unfoldable pub report :
      GoMap String Bool
      → AnalyticsInput
      → GoMap ℤ (Transaction F)
      → Time
      → GoMap String (ChargerAnalytics F)
      → AnalyticsOutput F
      → GoMap String (ChargerAnalytics F) × AnalyticsOutput F
  unfolding compute_memory_analytics
  report [] input transactions now analytics output = (analytics, output)
  report ((id, _) ∷ ids) input transactions now analytics output =
      let a = compute_memory_analytics id input transactions now in
      report ids input transactions now (put id a analytics) (add_charger a output)

  unfoldable pub charger_analytics : MemoryStore F → Time → AnalyticsInput → AnalyticsOutput F
  unfolding report charger_ids format_duration
  charger_analytics s now input =
      let ids = or_asked input.charger_id (charger_ids input.charger_id s.transactions []) in
      let (analytics, output) = report ids input s.transactions now [] empty_output in
      record output {
        analytics = if input.charger_id == "cumulative" then none else some analytics;
        total_uptime = format_duration output.total_uptime_seconds;
        total_time_occupied = format_duration output.total_time_occupied_seconds;
      }
