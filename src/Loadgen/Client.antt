-- ===== src/Loadgen/Client.antt =====
-- cmd/rwi-loadgen/main.go: `newHTTPClient`, the client with its settings, and `deterministicValue`.
use remote_write_inspector.Prelude.{ℕ, suc, ◌%◌}
use remote_write_inspector.Prelude.Int.{ℤ, pos, ◌*ℤ◌, ◌-ℤ◌, negsuc}
use remote_write_inspector.Config.{seconds}
use remote_write_inspector.Loadgen.{LoadConfig}
use remote_write_inspector.Loadgen.Pacer.{Floats}

pub record HttpClient : Type 0 where
  pub max_idle_conns : ℤ
  pub max_idle_conns_per_host : ℤ
  pub max_conns_per_host : ℤ
  pub idle_conn_timeout : ℤ
  pub timeout : ℤ

unfoldable pub new_http_client : {F : Type 0} → LoadConfig F → HttpClient
new_http_client cfg = record {
  max_idle_conns = cfg.workers *ℤ pos 4;
  max_idle_conns_per_host = cfg.workers *ℤ pos 4;
  max_conns_per_host = cfg.workers *ℤ pos 4;
  idle_conn_timeout = seconds 90;
  timeout = cfg.timeout;
}

-- `ts % 1000`, with the sign of `ts`.
unfoldable pub thousandths : ℤ → ℤ
thousandths (pos n) = pos (n % 1000)
thousandths (negsuc n) = pos 0 -ℤ pos (suc n % 1000)

unfoldable pub deterministic_value : {F : Type 0} → Floats F → ℕ → ℤ → ℕ → F
deterministic_value floats series_id ts sample_idx =
    floats.add
      (floats.add (floats.of_int (pos (series_id % 100_000)))
        (floats.div (floats.of_int (thousandths ts)) (floats.of_int (pos 1000))))
      (floats.div (floats.of_int (pos sample_idx)) (floats.of_int (pos 1_000_000)))
