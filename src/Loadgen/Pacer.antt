-- ===== src/Loadgen/Pacer.antt =====
-- cmd/rwi-loadgen/main.go: `newPacer`, `Wait` and `Stop`. The operations on floats are parameters.
use remote_write_inspector.Prelude.{Bool, true, false, not, Option, none, some, if◌then◌else◌}
use remote_write_inspector.Prelude.Int.{ℤ, pos, ltb_ℤ}

-- What the code does with values of the type float64. `to_int` is the conversion to a duration.
pub record Floats (F : Type 0) : Type 0 where
  pub of_int : ℤ → F
  pub add : F → F → F
  pub div : F → F → F
  pub at_most_zero : F → Bool
  pub to_int : F → ℤ

-- The interval of the ticker, if there is one.
pub record Pacer : Type 0 where
  pub ticker : Option ℤ

module _ {F : Type 0} (floats : Floats F) where
  open floats use {of_int, div, at_most_zero, to_int}

  unfoldable pub per_worker_rate : ℤ → ℤ → F
  per_worker_rate total_rate workers =
      let rate = div (of_int total_rate) (of_int workers) in
      if at_most_zero rate then of_int (pos 1) else rate

  -- An interval that is not positive is replaced by a nanosecond.
  unfoldable pub pacer_interval : ℤ → ℤ → ℤ
  pacer_interval total_rate workers =
      let interval =
        to_int (div (of_int (pos 1_000_000_000)) (per_worker_rate total_rate workers)) in
      if ltb_ℤ (pos 0) interval then interval else pos 1

  -- `newPacer`.
  unfoldable pub new_pacer : ℤ → ℤ → Pacer
  new_pacer total_rate workers =
      if not (ltb_ℤ (pos 0) total_rate)
      then record { ticker = none }
      else record { ticker = some (pacer_interval total_rate workers) }

-- What the `select` of `Wait` sees first.
pub data Selected : Type 0 where
  cancelled ticked : Selected

-- `Wait`; without a ticker it does not wait.
unfoldable pub wait_for : Option ℤ → Selected → Bool
wait_for none seen = true
wait_for (some interval) cancelled = false
wait_for (some interval) ticked = true

unfoldable pub wait : Pacer → Selected → Bool
wait p seen = wait_for p.ticker seen
