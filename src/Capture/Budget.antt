-- ===== src/Capture/Budget.antt =====
-- The budgets of a capture session: attempts, rate and duration.
use remote_write_inspector.Prelude.{
  ℕ, ◌+◌, ◌≡◌, ◌⊎◌, true, List, [], ◌∷◌, Option, none, some, arith, subst, sym,
}
use remote_write_inspector.Prelude.Int.{ℤ, pos, ◌-ℤ◌, ◌+ℤ◌, ◌≤ℤ◌, ltb_ℤ}
use remote_write_inspector.Capture.{
  CaptureConfig, Matcher, SampleCapture, SkipReason, duration_limit, sample_limit, second,
  new_sample_capture, roll_second, reserve,
}

-- Neither budget is overdrawn.
pub record InBudget (c : SampleCapture) : Type 0 where
  pub total : pos c.attempts ≤ℤ c.cfg.max_samples
  pub rate : pos c.window_count ≤ℤ c.cfg.rate

abbrev granted : Option SkipReason → ℕ
granted none = 1
granted (some r) = 0

-- How many of the calls at the given times get a reservation, and the session after them.
unfoldable pub reserve_all : SampleCapture → List ℤ → SampleCapture × ℕ
reserve_all c [] = (c, 0)
reserve_all c (now ∷ later) =
    let (c', reason) = reserve c now in
    let (c'', n) = reserve_all c' later in (c'', granted reason + n)

reserve-InBudget :
    (c : SampleCapture) (now : ℤ)
    → InBudget c
    → InBudget (reserve c now).0
      × ((reserve c now).0.attempts ≡ c.attempts + granted (reserve c now).1)
      × ((reserve c now).0.cfg ≡ c.cfg)
unfolding reserve roll_second
reserve-InBudget c now b = ground arith

-- However many reservations are asked for, and whenever, a session within its budgets grants no
-- more than its total budget has left, and what it grants is what it counts.
pub reserve_all-le-max_samples :
    (c : SampleCapture) (times : List ℤ)
    → InBudget c
    → InBudget (reserve_all c times).0
      × ((reserve_all c times).0.attempts ≡ c.attempts + (reserve_all c times).1)
      × (pos (c.attempts + (reserve_all c times).1) ≤ℤ c.cfg.max_samples)
unfolding reserve_all
reserve_all-le-max_samples c [] b = (b, omega arith, omega arith)
reserve_all-le-max_samples c (now ∷ later) b =
    let (b1, n1, e1) = reserve-InBudget c now b in
    let (b2, n2, l2) = reserve_all-le-max_samples (reserve c now).0 later b1 in
    (b2, omega arith, ground (arith, l2, n1, e1))

pub new_sample_capture-InBudget :
    (cfg : CaptureConfig) (matchers : List Matcher) (now : ℤ) (c : SampleCapture)
    → new_sample_capture cfg matchers now ≡ some c
    → InBudget c × (c.deadline ≡ now +ℤ cfg.duration) × (c.cfg ≡ cfg)
unfolding new_sample_capture
new_sample_capture-InBudget cfg matchers now c h = ground arith

-- The times come less than a second after the window's start.
abbrev pub InSecond : ℤ → List ℤ → Type 0
InSecond start [] = Unit {0}
InSecond start (now ∷ later) = (ltb_ℤ (now -ℤ start) second ≡ true) × InSecond start later

reserve_in_second :
    (c : SampleCapture) (now : ℤ)
    → ltb_ℤ (now -ℤ c.window_start) second ≡ true
    → ((reserve c now).0.window_start ≡ c.window_start)
      × ((reserve c now).0.window_count ≡ c.window_count + granted (reserve c now).1)
unfolding reserve roll_second
reserve_in_second c now h = ground arith

-- Of reservations asked for within one second of the window's start, a session within its budgets
-- grants at most as many as the rate has left.
pub reserve_all-le-rate :
    (c : SampleCapture) (times : List ℤ)
    → InBudget c
    → InSecond c.window_start times
    → pos (c.window_count + (reserve_all c times).1) ≤ℤ c.cfg.rate
unfolding reserve_all
reserve_all-le-rate c [] b h = omega arith
reserve_all-le-rate c (now ∷ later) b h =
    let (b1, _, e1) = reserve-InBudget c now b in
    let (start, count) = reserve_in_second c now h.0 in
    let r =
      reserve_all-le-rate (reserve c now).0 later b1
        (subst (λ t. InSecond t later) (sym start) h.1) in
    ground (arith, r, count, e1)

-- A session whose time is over, or whose total budget is used up, never grants again: at every later
-- time the answer is one of the two reasons that end a series, and the session does not change.
pub reserve_over :
    (c : SampleCapture) (now later : ℤ)
    → now ≤ℤ later
    → ((reserve c now).1 ≡ some duration_limit) ⊎ ((reserve c now).1 ≡ some sample_limit)
    → ((reserve c now).0 ≡ c)
      × ((reserve c later).0 ≡ c)
      × (((reserve c later).1 ≡ some duration_limit) ⊎ ((reserve c later).1 ≡ some sample_limit))
unfolding reserve
reserve_over c now later le h = ground arith
