-- ===== src/Diagnostics.antt =====
-- internal/inspector/diagnostics.go: the sampler that bounds finding logs, and the label array that is
-- cut to a byte limit. `json.Marshal` of a label is the parameter `encode`, `none` where it fails. The
-- random repeat decision of `ShouldLog` is an argument.
use remote_write_inspector.Prelude.{
  ℕ, ◌+◌, ◌-◌, Bool, true, false, ◌&&◌, not, List, [], ◌∷◌, Option, none, some, arith, ite, ltb,
  if◌then◌else◌, length, ℕ_discrete,
}
use remote_write_inspector.Prelude.Bytes.{Bytes}
use remote_write_inspector.Prelude.Int.{ℤ, pos, ◌-ℤ◌, ltb_ℤ}
use remote_write_inspector.Hash.Types.{Label}
use remote_write_inspector.Validate.Reasons.{Reason, Reason-discrete}
pub mod Sampling
pub mod Bounded

pub record FindingLogKey : Type 0 where
  pub identity_values : Bytes
  pub kind : Bytes
  pub reason : Reason
  pub series_hash : ℕ

unfoldable pub FindingLogKey-discrete : Discrete FindingLogKey
FindingLogKey-discrete = hlevel (ℕ_discrete, Reason-discrete)

-- `seen` is a Go map used as a set: it holds a key once.
pub record FindingLogSampler : Type 0 where
  pub window : ℤ
  pub first_limit : ℤ
  pub window_start : ℤ
  pub seen : List FindingLogKey

unfoldable pub has_key : FindingLogKey → List FindingLogKey → Bool
has_key k [] = false
has_key k (j ∷ js) = ite (FindingLogKey-discrete j k) true (has_key k js)

unfoldable pub new_finding_log_sampler : ℤ → ℤ → ℤ → FindingLogSampler
new_finding_log_sampler window first_limit now = record {
  window = window;
  first_limit = first_limit;
  window_start = now;
  seen = [];
}

-- A window that has run its time is replaced by one that starts now.
unfoldable pub roll_window : FindingLogSampler → ℤ → FindingLogSampler
roll_window s now =
    if not (ltb_ℤ (now -ℤ s.window_start) s.window)
    then record s { window_start = now; seen = [] }
    else s

-- `ShouldLog`; `repeat` is `repeatRate > 0 && rand.Float64() <= repeatRate`.
unfoldable pub should_log : FindingLogSampler → ℤ → FindingLogKey → Bool → FindingLogSampler × Bool
should_log s now key repeat =
    let s' = roll_window s now in
    if not (has_key key s'.seen) && ltb_ℤ (pos (length s'.seen)) s'.first_limit
    then (record s' { seen = key ∷ s'.seen }, true)
    else (s', repeat)

module _ (encode : Label → Option Bytes) (max_bytes : ℤ) where
  -- The loop of `boundedLogLabels`: `used` bytes are taken, and `some_out` says that the output is
  -- not empty, so that a separator goes before the next label.
  unfoldable pub bounded_from : ℕ → Bool → List Label → List Label × Bool
  bounded_from used some_out [] = ([], false)
  bounded_from used some_out (label ∷ labels) = elim (encode label) [
    | none ↦ ([], true)
    | some encoded ↦
        let separator : ℕ = if some_out then 1 else 0 in
        let used' = used + separator + length encoded in
        if ltb_ℤ max_bytes (pos used')
        then ([], true)
        else (let (out, truncated) = bounded_from used' true labels in (label ∷ out, truncated))
  ]

  -- `boundedLogLabels`: two bytes are for the brackets of the array.
  unfoldable pub bounded_log_labels : List Label → List Label × Bool
  bounded_log_labels labels = bounded_from 2 false labels
