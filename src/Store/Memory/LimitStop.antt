-- ===== src/Store/Memory/LimitStop.antt =====
-- limit_stop_memory.go: the claim that lets one worker stop a transaction over its limit.
use ocpphal_go.Prelude.{
  String, Bool, true, false, not, ◌&&◌, Option, none, some, ℤ, Float, ◌==◌, ◌!=◌, get,
  if◌then◌else◌, is_some, String_key, ℤ_key,
}
use ocpphal_go.Store.Types.{Transaction}
use ocpphal_go.Store.Memory.{MemoryStore, write}

module _ {F : Type 0} ⦃f : Float F⦄ where
  -- `*tx.TotalConsumption < *tx.MaxKWh`, once neither is nil
  unfoldable pub limit_reached : Transaction F → Bool
  limit_reached tx = elim tx.max_kwh [
    | none ↦ false
    | some max ↦ elim tx.total_consumption [ none ↦ false | some total ↦ not (f.flt total max) ]
  ]

  -- The early returns of CheckAndMarkLimitStop, from the entry on.
  unfoldable pub should_mark : String → Transaction F → Bool
  unfolding limit_reached
  should_mark charger_id tx =
      if tx.charger_id != charger_id
      then false
      else if is_some tx.stop_time
      then false
      else if tx.limit_stop_requested
      then false
      else limit_reached tx

  abbrev pub mark_found : MemoryStore F → String → ℤ → Option (Transaction F) → Bool × MemoryStore F
  mark_found s charger_id tid none = (false, s)
  mark_found s charger_id tid (some tx) =
      if should_mark charger_id tx
      then (true, write s tid (record tx { limit_stop_requested = true }))
      else (false, s)

  unfoldable pub check_and_mark_limit_stop : MemoryStore F → String → ℤ → Bool × MemoryStore F
  check_and_mark_limit_stop s charger_id tid = mark_found s charger_id tid (get tid s.transactions)

  abbrev pub release_found : MemoryStore F → String → ℤ → Option (Transaction F) → MemoryStore F
  release_found s charger_id tid none = s
  release_found s charger_id tid (some tx) =
      if tx.charger_id == charger_id && not (is_some tx.stop_time)
      then write s tid (record tx { limit_stop_requested = false })
      else s

  unfoldable pub release_limit_stop_request : MemoryStore F → String → ℤ → MemoryStore F
  release_limit_stop_request s charger_id tid =
      release_found s charger_id tid (get tid s.transactions)
