-- ===== src/Loadgen/Ends.antt =====
-- The workers of the load generator end.
use remote_write_inspector.Prelude.{
  ℕ, suc, ◌+◌, ◌*◌, ◌<◌, ◌≤◌, ◌≢◌, ◌≡◌, refl, ap, ◌∙◌, Bool, true, false, List, [], ◌∷◌, Option,
  none, some, if◌then◌else◌, get_elem?, set, length, arith, Option-cases, inl, inr,
}
use remote_write_inspector.Prelude.Bytes.{Bytes}
use remote_write_inspector.Prelude.Int.{ℤ, pos}
use remote_write_inspector.Loadgen.{LoadConfig}
use remote_write_inspector.Loadgen.Stats.{
  Round, not_marshalled, not_built, interrupted, failed, answered, count_round, count_rounds,
}
use remote_write_inspector.Loadgen.Rounds.{count_rounds-Tallied}
use remote_write_inspector.Loadgen.Requests.{
  Draws, GeneratedSeries, GeneratedRequest, generate_request,
}
use remote_write_inspector.Loadgen.Pacer.{Pacer, ticked}
use remote_write_inspector.Loadgen.Workers.{
  Worker, waiting, checked, finished, sending, Load, Action, polled, generated, responded, errored,
  LoadEvent, cancel, act, count_in, polls, take_number, errors, sends, acts, happens, run_workers,
}
use remote_write_inspector.Loadgen.Sound.{sum_workers, sum_workers-set, some_injective, Sound}

-- How many steps a worker has left once the context has ended.
unfoldable pub steps_left : Worker → ℕ
steps_left waiting = 1
steps_left checked = 3
steps_left (sending request) = 2
steps_left finished = 0

steps_left-le : (w : Worker) → steps_left w ≤ 3
unfolding steps_left
steps_left-le w = ground arith

steps_left-sum : (ws : List Worker) → sum_workers steps_left ws ≤ 3 * length ws
unfolding sum_workers
steps_left-sum [] = omega arith
steps_left-sum (w ∷ ws) = omega (arith, steps_left-le w, steps_left-sum ws)

-- The events that are steps of workers.
unfoldable pub action_count : List LoadEvent → ℕ
action_count [] = 0
action_count (cancel ∷ es) = action_count es
action_count (act i a ∷ es) = suc (action_count es)

abbrev no_draws : Draws
no_draws = record {
  invalid = λ n. false;
  sample = λ n k. record { stale = false; future = false; conflict = false; conflict_value = 0 };
}

errors_interrupted :
    (latency : ℤ) (l : Load)
    → l.cancelled ≡ true
    → errors latency l ≡ count_in interrupted finished l
unfolding errors
errors_interrupted latency l c =
    ap (λ b. if b then count_in interrupted finished l else count_in (failed latency) waiting l) c

count_in_lem :
    (r : Round) (w v : Worker) (l l' : Load)
    → count_in r w l ≡ some (l', v)
    → (w ≡ v) × (l'.workers ≡ l.workers) × (l'.cancelled ≡ l.cancelled)
unfolding count_in
count_in_lem r w v l l' h = elim (Option-cases (count_round r l.stats)) [
  | inl bad ↦ absurd (ground arith)
  | inr (stats, good) ↦ (ground arith, ground arith, ground arith)
]

module _ {F : Type 0} (cfg : LoadConfig F) (pacer : Pacer) (value : ℕ → ℤ → ℕ → ℕ)
    (marshal : List GeneratedSeries → Option Bytes) (encode : Bytes → Bytes) where
  -- A step once the context has ended.
  abbrev StepsDown : Worker → Load → Load → Worker → Type 0
  StepsDown w l l' w' =
      (steps_left w' < steps_left w) × (l'.workers ≡ l.workers) × (l'.cancelled ≡ l.cancelled)

  sends_down :
      (built : Bool) (g : Option GeneratedRequest) (l l' : Load) (w' : Worker)
      → sends cfg pacer value marshal encode built g (take_number l) ≡ some (l', w')
      → StepsDown checked l l' w'
  unfolding sends take_number steps_left
  sends_down built none l l' w' h =
      ground (arith, count_in_lem not_marshalled waiting w' (take_number l) l' h)
  sends_down false (some g) l l' w' h =
      ground (arith, count_in_lem not_built waiting w' (take_number l) l' h)
  sends_down true (some g) l l' w' h = (ground arith, ground arith, ground arith)

  acts_down :
      (w : Worker) (a : Action) (l l' : Load) (w' : Worker)
      → l.cancelled ≡ true
      → acts cfg pacer value marshal encode w a l ≡ some (l', w')
      → StepsDown w l l' w'
  unfolding acts steps_left polls errors
  acts_down waiting (polled seen) l l' w' c h = (ground arith, ground arith, ground arith)
  acts_down checked (generated now draws built) l l' w' c h =
      sends_down built (generate_request cfg value now draws marshal encode l.next) l l' w' h
  acts_down (sending g) (responded status latency) l l' w' c h =
      ground (arith, count_in_lem (answered status g.sizes latency) waiting w' l l' h)
  acts_down (sending g) (errored latency) l l' w' c h =
      ground (arith, count_in_lem interrupted finished w' l l' (ground arith))
  acts_down w a l l' w' c h = absurd (ground arith)

  run_workers_down :
      (es : List LoadEvent) (l l' : Load)
      → l.cancelled ≡ true
      → run_workers cfg pacer value marshal encode es l ≡ some l'
      → action_count es + sum_workers steps_left l'.workers ≤ sum_workers steps_left l.workers
  unfolding run_workers happens action_count
  run_workers_down [] l l' c h = ground (arith, ap (λ k. k.workers) (some_injective h))
  run_workers_down (cancel ∷ es) l l' c h =
      run_workers_down es (record l { cancelled = true }) l' refl h
  run_workers_down (act i a ∷ es) l l' c h = elim (Option-cases (get_elem? l.workers i)) [
    | inl e ↦ absurd (ground arith)
    | inr (w, at) ↦ elim (Option-cases (acts cfg pacer value marshal encode w a l)) [
      | inl e ↦ absurd (ground arith)
      | inr ((l1, w'), done) ↦
          let (less, same, over) = acts_down w a l l1 w' c done in
          omega (
            arith,
            run_workers_down es (record l1 { workers = set l.workers i w' }) l' (over ∙ c)
                (ground arith),
            sum_workers-set steps_left l.workers i w w' at,
            less,
          )
    ]
  ]

  count_in_total :
      (r : Round) (w : Worker) (l : Load)
      → count_rounds l.rounds ≡ some l.stats
      → (l' : Load) × (count_in r w l ≡ some (l', w))
  unfolding count_in count_rounds
  count_in_total r w l h =
      let (stats, e, _) = count_rounds-Tallied (r ∷ l.rounds) in
      let counted : count_round r l.stats ≡ some stats = ground arith in
      (record l { stats = stats; rounds = r ∷ l.rounds }, rw counted refl)

  sends_total :
      (g : Option GeneratedRequest) (l : Load)
      → count_rounds l.rounds ≡ some l.stats
      → (l' : Load) × (w' : Worker) × (sends cfg pacer value marshal encode true g l
          ≡ some (l', w'))
  unfolding sends
  sends_total none l h = let (l', e) = count_in_total not_marshalled waiting l h in (l', waiting, e)
  sends_total (some g) l h = (l, sending g, refl)

  -- A worker that has not returned can take a step.
  acts_total :
      (w : Worker) (l : Load)
      → count_rounds l.rounds ≡ some l.stats
      → l.cancelled ≡ true
      → w ≢ finished
      → (a : Action) × (l' : Load) × (w' : Worker) × (acts cfg pacer value marshal encode w a l
          ≡ some (l', w'))
  unfolding acts polls take_number
  acts_total waiting l h c e = (polled ticked, l, finished, ground arith)
  acts_total checked l h c e =
      let draws : Draws = no_draws in
      let (l', w', run) =
        sends_total (generate_request cfg value 0 draws marshal encode l.next) (take_number l) h in
      (generated 0 draws true, l', w', run)
  acts_total (sending g) l h c e =
      let (l', run) = count_in_total interrupted finished l h in
      (errored (pos 0), l', finished, errors_interrupted (pos 0) l c ∙ run)
  acts_total finished l h c e = absurd (e refl)

  -- In a sound state, as all are that the workers reach, once the context has ended, the workers
  -- together take at most three more steps for each of them, whatever else happens and in whatever
  -- order; and a worker that has not returned is never stuck: some step of it leads on.
  pub run_workers_ends :
      (l l' : Load) (es : List LoadEvent) (i : ℕ) (w : Worker)
      → Sound l
      → l.cancelled ≡ true
      → run_workers cfg pacer value marshal encode es l ≡ some l'
      → get_elem? l.workers i ≡ some w
      → w ≢ finished
      → (action_count es ≤ 3 * length l.workers)
        × ((a : Action) × (l' : Load) × (happens cfg pacer value marshal encode (act i a) l
              ≡ some l'))
  unfolding happens
  run_workers_ends l l' es i w s c h at more =
      let (a, next, w', run) = acts_total w l s.counted c more in
      (
        omega (arith, run_workers_down es l l' c h, steps_left-sum l.workers),
        (a, record next { workers = set l.workers i w' }, rw at (rw run refl)),
      )
