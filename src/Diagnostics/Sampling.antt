-- ===== src/Diagnostics/Sampling.antt =====
-- `ShouldLog` over a sequence of findings, with the random repeats left out.
use remote_write_inspector.Prelude.{
  ◌+◌, ◌≤◌, ◌≡◌, ◌⊎◌, inl, inr, true, false, ◌&&◌, not, List, [], ◌∷◌, arith, if◌then◌else◌, length,
  Bool-cases, max,
}
use remote_write_inspector.Prelude.Int.{ℤ, pos, pos_part, ◌-ℤ◌, ltb_ℤ}
use remote_write_inspector.Diagnostics.{
  FindingLogKey, FindingLogSampler, has_key, roll_window, should_log,
}

-- The sampler after the calls, and the keys that were logged, in order.
unfoldable pub run_log :
    FindingLogSampler → List (ℤ × FindingLogKey) → FindingLogSampler × List FindingLogKey
run_log s [] = (s, [])
run_log s ((now, key) ∷ calls) =
    let (s', logged) = should_log s now key false in
    let (s'', keys) = run_log s' calls in (s'', if logged then key ∷ keys else keys)

-- The calls are made within the window that began at `start`.
abbrev pub InWindow : ℤ → ℤ → List (ℤ × FindingLogKey) → Type 0
InWindow start window [] = Unit {0}
InWindow start window ((now, key) ∷ calls) =
    (ltb_ℤ (now -ℤ start) window ≡ true) × InWindow start window calls

-- No key is logged twice, nor one that was seen before.
abbrev pub Fresh : List FindingLogKey → List FindingLogKey → Type 0
Fresh seen [] = Unit {0}
Fresh seen (k ∷ ks) = (has_key k seen ≡ false) × Fresh (k ∷ seen) ks

-- Every key called with has been seen, unless the limit is used up.
abbrev pub Covered : ℤ → List FindingLogKey → List (ℤ × FindingLogKey) → Type 0
Covered limit seen [] = Unit {0}
Covered limit seen ((now, key) ∷ calls) =
    ((has_key key seen ≡ true) ⊎ (ltb_ℤ (pos (length seen)) limit ≡ false))
    × Covered limit seen calls

in_window_log :
    (s : FindingLogSampler) (now : ℤ) (key : FindingLogKey)
    → ltb_ℤ (now -ℤ s.window_start) s.window ≡ true
    → should_log s now key false ≡ (
        if not (has_key key s.seen) && ltb_ℤ (pos (length s.seen)) s.first_limit
        then (record s { seen = key ∷ s.seen }, true)
        else (s, false))
unfolding should_log roll_window
in_window_log s now key h = rw h

-- What the keys seen before a run leave of it afterwards.
pub record Logged (s s' : FindingLogSampler) (calls : List (ℤ × FindingLogKey))
    (keys : List FindingLogKey) : Type 0 where
  pub counted : length s'.seen ≡ length keys + length s.seen
  pub limited : length s'.seen ≤ max (length s.seen) (pos_part s.first_limit)
  pub fresh : Fresh s.seen keys
  pub covered : Covered s.first_limit s'.seen calls

-- What was seen stays seen within the window.
run_log-has_key :
    (k : FindingLogKey) (s : FindingLogSampler) (calls : List (ℤ × FindingLogKey))
    → InWindow s.window_start s.window calls
    → has_key k s.seen ≡ true
    → has_key k (run_log s calls).0.seen ≡ true
unfolding run_log has_key
run_log-has_key k s [] h e = e
run_log-has_key k s ((now, key) ∷ calls) h e =
    elim (Bool-cases (not (has_key key s.seen) && ltb_ℤ (pos (length s.seen)) s.first_limit)) [
      | inl new ↦
          rw (in_window_log s now key h.0)
            (rw new (run_log-has_key k (record s { seen = key ∷ s.seen }) calls h.1 (ground arith)))
      | inr old ↦ rw (in_window_log s now key h.0) (rw old (run_log-has_key k s calls h.1 e))
    ]

-- While the window lasts, a finding is logged once, as long as the limit is not used up: no key is
-- logged twice, no more keys than the limit are, and a key that was called with and not logged was
-- seen before or came when the limit was used up.
pub run_log-Logged :
    (s : FindingLogSampler) (calls : List (ℤ × FindingLogKey))
    → InWindow s.window_start s.window calls
    → Logged s (run_log s calls).0 calls (run_log s calls).1
unfolding run_log has_key
run_log-Logged s [] h = record {
  counted = omega arith;
  limited = omega arith;
  fresh = tt;
  covered = tt;
}
run_log-Logged s ((now, key) ∷ calls) h =
    elim (Bool-cases (not (has_key key s.seen) && ltb_ℤ (pos (length s.seen)) s.first_limit)) [
      | inl new ↦
          let s1 : FindingLogSampler = record s { seen = key ∷ s.seen } in
          let r = run_log-Logged s1 calls h.1 in
          let here : has_key key s1.seen ≡ true = unfold has_key in ground arith in
          rw (in_window_log s now key h.0) (
            rw new (record {
              counted = omega (arith, r.counted);
              limited = ground (arith, r.limited);
              fresh = (ground arith, r.fresh);
              covered = (inl (run_log-has_key key s1 calls h.1 here), r.covered);
            }))
      | inr old ↦
          let r = run_log-Logged s calls h.1 in
          rw (in_window_log s now key h.0) (
            rw old (record {
              counted = r.counted;
              limited = r.limited;
              fresh = r.fresh;
              covered = (
                elim (Bool-cases (has_key key s.seen)) [
                  | inl t ↦ inl (run_log-has_key key s calls h.1 t)
                  | inr f ↦ inr (ground (arith, r.counted))
                ],
                r.covered,
              );
            }))
    ]
