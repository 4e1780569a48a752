-- ===== src/Loadgen/Progress.antt =====
-- cmd/rwi-loadgen/main.go: `printProgress`, and the line that `main` begins with.
use remote_write_inspector.Prelude.{ℕ, suc, List, [], ◌∷◌, ◌++◌}
use remote_write_inspector.Prelude.Bytes.{Bytes, codes}
use remote_write_inspector.Prelude.Int.{ℤ, pos, negsuc}
use remote_write_inspector.Loadgen.{LoadConfig}
use remote_write_inspector.Loadgen.Requests.{itoa}
use remote_write_inspector.Loadgen.Pacer.{Floats}
use remote_write_inspector.Loadgen.Report.{
  Snapshot, status_summary, per_second, mib_per_second, rate_label, duration_or_signal,
}

-- What the `select` of the loop sees: the end of the workers, that of the context, or a tick with the
-- snapshot and the time elapsed.
pub data Watched : Type 0 where
  all_done context_done : Watched
  tick : Snapshot → ℤ → Watched

-- `%d` of an int.
unfoldable pub itoa_ℤ : ℤ → Bytes
itoa_ℤ (pos n) = itoa n
itoa_ℤ (negsuc n) = codes "-" ++ itoa (suc n)

-- The line before the workers start; `text` is that of a duration.
unfoldable pub start_line : {F : Type 0} → (ℤ → Bytes) → LoadConfig F → Bytes
start_line text cfg =
    codes "target="
    ++ (cfg.target_url
        ++ (codes " duration="
            ++ (duration_or_signal text cfg.duration
                ++ (codes " workers="
                    ++ (itoa_ℤ cfg.workers
                        ++ (codes " rate="
                            ++ (rate_label cfg.rate
                                ++ (codes " series/request="
                                    ++ (itoa_ℤ cfg.series_per_request
                                        ++ (codes " samples/series="
                                            ++ (itoa_ℤ cfg.samples_per_series
                                                ++ (codes " active_series="
                                                    ++ itoa_ℤ cfg.active_series))))))))))))

module _ {F : Type 0} (floats : Floats F) (seconds_of : ℤ → F) (fixed_one : F → Bytes)
    (rounded_text : ℤ → Bytes) (percentile : ℕ → Bytes) where
  unfoldable pub progress_line : Snapshot → ℤ → Bytes
  progress_line snap elapsed =
      let rate = λ (n : ℕ). fixed_one (per_second floats seconds_of n elapsed) in
      let mib = λ (n : ℕ). fixed_one (mib_per_second floats seconds_of n elapsed) in
      codes "elapsed="
      ++ (rounded_text elapsed
          ++ (codes " requests="
              ++ (itoa snap.requests
                  ++ (codes " rps="
                      ++ (rate snap.requests
                          ++ (codes " samples/s="
                              ++ (rate snap.samples
                                  ++ (codes " decoded="
                                      ++ (mib snap.decoded_bytes
                                          ++ (codes "MiB/s wire="
                                              ++ (mib snap.body_bytes
                                                  ++ (codes "MiB/s success="
                                                      ++ (itoa snap.successes
                                                          ++ (codes " statuses="
                                                            ++ (status_summary snap
                                                            ++ (codes " p95~"
                                                            ++ percentile 95))))))))))))))))

  -- `printProgress`, by its lines: it returns when the workers have ended, which it waits for at the end
  -- of the context.
  unfoldable pub print_progress : List Watched → List Bytes
  print_progress [] = []
  print_progress (all_done ∷ seen) = []
  print_progress (context_done ∷ seen) = []
  print_progress (tick snap elapsed ∷ seen) = progress_line snap elapsed ∷ print_progress seen
