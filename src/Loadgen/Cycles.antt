-- ===== src/Loadgen/Cycles.antt =====
-- The series and the path of the requests of a cycle.
use remote_write_inspector.Prelude.{
  ℕ, zero, suc, ◌+◌, ◌-◌, ◌*◌, ◌/◌, ◌%◌, ◌^◌, ◌≤◌, ◌<◌, ◌≡◌, some, get_elem?, arith, ap, ap₂, sym,
  ◌∙◌,
}
use native.Mathlib.Nat.{
  div-add-mod', add-mul, mul-lt-mul_of_pos_right, mod-lt, mod-eq_of_lt, mod-add-mod, add-mod-mod,
  add-mod_right, le-div_iff_mul-le, div-lt_iff_lt-mul,
}
use remote_write_inspector.Prelude.Int.{ℤ, pos_part}
use remote_write_inspector.Loadgen.{LoadConfig}
use remote_write_inspector.Loadgen.Requests.{
  Draws, generated_series, series_from, request_series, cycle_len, path_index,
}

-- Enough requests of `s` series to reach all of `a`.
abbrev round_up : ℕ → ℕ → ℕ
round_up a s = (a + s - 1) / s

round_up_lem : (a s : ℕ) → 0 < s → a ≤ round_up a s * s
round_up_lem a s h = omega (arith, div-add-mod' (a + s - 1) s, mod-lt (a + s - 1) h)

mod_reached : (b v a : ℕ) → v < a → (b + (v + a - b % a) % a) % a ≡ v
mod_reached b v a h =
    let small = mod-lt b {m = a} (omega arith) in
    let back : b % a + (v + a - b % a) ≡ v + a = omega (arith, small) in
    add-mod-mod b (v + a - b % a) a
    ∙ sym (mod-add-mod b a (v + a - b % a))
    ∙ ap (λ n. n % a) back
    ∙ add-mod_right v a
    ∙ mod-eq_of_lt h

next_cycle : (c l s r : ℕ) → r < l * s → c * l * s + r < (c + 1) * l * s
next_cycle c l s r h =
    let once : (c + 1) * l * s ≡ c * l * s + 1 * l * s =
      ap (λ n. n * s) (add-mul c 1 l) ∙ add-mul (c * l) (1 * l) s in
    let unit : 1 * l * s ≡ l * s = ap (λ n. n * s) (omega arith) in omega (arith, once, unit)

factor_pos : (q n l : ℕ) → q < n * l → 0 < l
factor_pos q n zero h = omega arith
factor_pos q n (suc l) h = omega arith

quotient_unique : (q c l : ℕ) → c * l ≤ q → q < (c + 1) * l → q / l ≡ c
quotient_unique q c l from until =
    let positive = factor_pos q (c + 1) l until in
    omega (arith, (le-div_iff_mul-le positive).1 from, (div-lt_iff_lt-mul positive).1 until)

wrapped_id : (x a idx v : ℕ) → x < 2 ^ 64 → (x + idx) % a ≡ v → (x % 2 ^ 64 % a + (0 + idx)) % a ≡ v
wrapped_id x a idx v h e =
    ap (λ n. (n % a + (0 + idx)) % a) (mod-eq_of_lt h)
    ∙ mod-add-mod x a (0 + idx)
    ∙ ap (λ n. (x + n) % a) {x = 0 + idx} {y = idx} (omega arith)
    ∙ e

cycle_reached :
    (a s c v : ℕ)
    → 0 < s
    → v < a
    → (q : ℕ) × (k : ℕ) × (k < s)
      × (c * round_up a s ≤ q)
      × (q < (c + 1) * round_up a s)
      × ((q * s + k) % a ≡ v)
cycle_reached a s c v hs h =
    let b = c * round_up a s * s in
    let m = b + (v + a - b % a) % a in
    (
      m / s,
      m % s,
      mod-lt m hs,
      (le-div_iff_mul-le hs).1 (omega arith),
      (div-lt_iff_lt-mul hs).1 (
          next_cycle c (round_up a s) s _
            (omega (arith, round_up_lem a s hs, mod-lt (v + a - b % a) {m = a} (omega arith)))),
      ap (λ n. n % a) (div-add-mod' m s) ∙ mod_reached b v a h,
    )

module _ {F : Type 0} (cfg : LoadConfig F) (deterministic_value : ℕ → ℤ → ℕ → ℕ) where
  get_elem?-series_from :
      (now_ms : ℕ) (draws : Draws) (start idx n k : ℕ)
      → k < n
      → get_elem? (series_from cfg deterministic_value now_ms draws start idx n) k
        ≡ some (
            generated_series cfg deterministic_value now_ms draws
              (idx + k)
              ((start + (idx + k)) % pos_part cfg.active_series))
  unfolding series_from
  get_elem?-series_from now_ms draws start idx zero k h = absurd (omega arith)
  get_elem?-series_from now_ms draws start idx (suc n) zero h =
      ap
        (λ m. some (
          generated_series cfg deterministic_value now_ms draws m
            ((start + m) % pos_part cfg.active_series)))
        (omega arith)
  get_elem?-series_from now_ms draws start idx (suc n) (suc k) h =
      get_elem?-series_from now_ms draws start (idx + 1) n k (omega arith)
      ∙ ap
          (λ m. some (
            generated_series cfg deterministic_value now_ms draws m
              ((start + m) % pos_part cfg.active_series)))
          (omega arith)

  -- While the numbers of the series sent stay below 2^64, each series is sent in each cycle of
  -- requests, and all requests of a cycle take one path, the next cycle the next: so every series is
  -- sent on every path. The time and the draws may differ in each request.
  pub series_sent_in_cycle :
      (now_ms : ℕ → ℕ) (draws : ℕ → Draws) (cycle id : ℕ)
      → 0 < pos_part cfg.series_per_request
      → id < pos_part cfg.active_series
      → (cycle + 1) * cycle_len cfg * pos_part cfg.series_per_request ≤ 2 ^ 64
      → (seq : ℕ) × (idx : ℕ) × (cycle * cycle_len cfg ≤ seq)
        × (seq < (cycle + 1) * cycle_len cfg)
        × (get_elem? (request_series cfg deterministic_value (now_ms seq) (draws seq) seq) idx
            ≡ some (generated_series cfg deterministic_value (now_ms seq) (draws seq) idx id))
        × (path_index cfg seq ≡ cycle % pos_part cfg.path_count)
  unfolding cycle_len request_series path_index
  series_sent_in_cycle now_ms draws cycle id positive known fits =
      let a = pos_part cfg.active_series in
      let s = pos_part cfg.series_per_request in
      let (seq, idx, in_request, from, until, is) = cycle_reached a s cycle id positive known in
      (
        seq,
        idx,
        from,
        until,
        get_elem?-series_from (now_ms seq) (draws seq) (seq * s % 2 ^ 64 % a) 0 s idx in_request
            ∙ ap₂
                (λ k n.
                  some (generated_series cfg deterministic_value (now_ms seq) (draws seq) k n))
                {x = 0 + idx} {y = idx} (omega arith)
                (wrapped_id (seq * s) a idx id
                  (omega (arith, mul-lt-mul_of_pos_right until positive, fits)) is),
        ap (λ n. n % pos_part cfg.path_count)
            (quotient_unique seq cycle (cycle_len cfg) from until),
      )
