-- ===== src/Inspector/Times.antt =====
-- Stale and future times.
use remote_write_inspector.Prelude.{◌≡◌, Bool, true, false, ◌&&◌, arith}
use remote_write_inspector.Prelude.Int.{ℤ, pos, negsuc, ◌+ℤ◌, ◌-ℤ◌, ◌≤ℤ◌, ltb_ℤ}
use remote_write_inspector.Config.Types.{Config}
use remote_write_inspector.Config.Normal.{Normal}
use remote_write_inspector.Inspector.{milliseconds, is_stale, is_future}

milliseconds-pos : (d : ℤ) → ltb_ℤ (pos 0) d ≡ true → pos 0 ≤ℤ milliseconds d
unfolding milliseconds
milliseconds-pos (pos n) h = omega arith
milliseconds-pos (negsuc n) h = absurd (ground arith)

-- With a normalized configuration no time is both stale and future, a time that is not before now is
-- never stale, and one that is not after now never future.
pub is_stale-is_future :
    {F : Type 0} (rate_out_of_range : F → Bool) (cfg : Config F) (ts now_ms : ℤ)
    → Normal rate_out_of_range cfg
    → ((is_stale cfg ts now_ms && is_future cfg ts now_ms) ≡ false)
      × (now_ms ≤ℤ ts → is_stale cfg ts now_ms ≡ false)
      × (ts ≤ℤ now_ms → is_future cfg ts now_ms ≡ false)
unfolding is_stale is_future ◌+ℤ◌ ◌-ℤ◌
is_stale-is_future rate cfg ts now_ms n =
    let a = milliseconds-pos cfg.stale_cutoff n.stale_cutoff in
    let b = milliseconds-pos cfg.future_skew n.future_skew in
    (ground arith, (λ le. ground arith), λ le. ground arith)
