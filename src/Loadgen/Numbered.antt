-- ===== src/Loadgen/Numbered.antt =====
-- Whatever the workers do, each number is taken once, and each request is counted once.
use remote_write_inspector.Prelude.{
  ℕ, ◌%◌, ◌^◌, ◌≡◌, refl, sym, subst, ap₂, ◌∙◌, Bool, true, false, List, [], ◌∷◌, Option, none,
  some, get_elem?, set, length, arith, Option-cases, Bool-cases, inl, inr, ◌⊎◌,
}
use remote_write_inspector.Prelude.Bytes.{Bytes}
use remote_write_inspector.Prelude.Int.{ℤ}
use remote_write_inspector.Loadgen.{LoadConfig}
use remote_write_inspector.Loadgen.Stats.{
  not_marshalled, not_built, interrupted, failed, answered, add_uint64, count_rounds,
}
use remote_write_inspector.Loadgen.Requests.{GeneratedSeries, GeneratedRequest, generate_request}
use remote_write_inspector.Loadgen.Pacer.{Pacer, Selected}
use remote_write_inspector.Loadgen.Workers.{
  Worker, waiting, checked, finished, sending, Load, Action, polled, generated, responded, errored,
  LoadEvent, cancel, act, polls, take_number, errors, sends, acts, happens, run_workers, new_load,
}
use remote_write_inspector.Loadgen.Sound.{
  sum_workers-set, sum_workers-replicate, is_sending, numbers_below, Sound, some_injective, Keeps,
  count_in-Keeps, same-Keeps,
}

-- A worker that waits goes on or returns.
pub polls_cases :
    (pacer : Pacer) (seen : Selected) (l l' : Load) (w' : Worker)
    → polls pacer seen l ≡ some (l', w')
    → (polls pacer seen l ≡ some (l, finished)) ⊎ (polls pacer seen l ≡ some (l, checked))
unfolding polls
polls_cases pacer seen l l' w' h = ground arith

module _ {F : Type 0} (cfg : LoadConfig F) (pacer : Pacer) (value : ℕ → ℤ → ℕ → ℕ)
    (marshal : List GeneratedSeries → Option Bytes) (encode : Bytes → Bytes) where
  taken_next : (l : Load) → Sound l → (take_number l).next ≡ length (take_number l).taken % 2 ^ 64
  unfolding take_number add_uint64
  taken_next l s = omega (arith, s.next)

  taken_numbers :
      (l : Load) → Sound l → (take_number l).taken ≡ numbers_below (length (take_number l).taken)
  unfolding take_number numbers_below
  taken_numbers l s = ap₂ ◌∷◌ s.next s.taken

  sends-Keeps :
      (built : Bool) (g : Option GeneratedRequest) (l l' : Load) (w' : Worker)
      → Sound l
      → sends cfg pacer value marshal encode built g (take_number l) ≡ some (l', w')
      → Keeps l checked l' w'
  unfolding sends take_number is_sending add_uint64 numbers_below
  sends-Keeps built none l l' w' s h =
      count_in-Keeps not_marshalled checked waiting w' l (take_number l) l' refl (taken_next l s)
        (taken_numbers l s) s.counted (omega arith) h
  sends-Keeps false (some g) l l' w' s h =
      count_in-Keeps not_built checked waiting w' l (take_number l) l' refl (taken_next l s)
        (taken_numbers l s) s.counted (omega arith) h
  sends-Keeps true (some g) l l' w' s h = record {
    workers = ground arith;
    next = ground (arith, taken_next l s);
    taken = ground (arith, taken_numbers l s);
    counted = ground (arith, s.counted);
    accounted = ground arith;
  }

  acts-Keeps :
      (w : Worker) (a : Action) (l l' : Load) (w' : Worker)
      → Sound l
      → acts cfg pacer value marshal encode w a l ≡ some (l', w')
      → Keeps l w l' w'
  unfolding acts is_sending polls errors
  acts-Keeps waiting (polled seen) l l' w' s h = elim (polls_cases pacer seen l l' w' h) [
    | inl e ↦ same-Keeps waiting finished w' l l' s refl (sym e ∙ h)
    | inr e ↦ same-Keeps waiting checked w' l l' s refl (sym e ∙ h)
  ]
  acts-Keeps checked (generated now draws built) l l' w' s h =
      sends-Keeps built (generate_request cfg value now draws marshal encode l.next) l l' w' s h
  acts-Keeps (sending g) (responded status latency) l l' w' s h =
      count_in-Keeps (answered status g.sizes latency) (sending g) waiting w' l l l' refl s.next
        s.taken s.counted (omega arith) h
  acts-Keeps (sending g) (errored latency) l l' w' s h = elim (Bool-cases l.cancelled) [
    | inl t ↦
        count_in-Keeps interrupted (sending g) finished w' l l l' refl s.next s.taken s.counted
          (omega arith) (ground arith)
    | inr f ↦
        count_in-Keeps (failed latency) (sending g) waiting w' l l l' refl s.next s.taken s.counted
          (omega arith) (ground arith)
  ]
  acts-Keeps w a l l' w' s h = absurd (ground arith)

  -- The workers with the acting one in its new phase.
  Keeps-Sound :
      (l l' : Load) (i : ℕ) (w w' : Worker)
      → Sound l
      → get_elem? l.workers i ≡ some w
      → Keeps l w l' w'
      → Sound (record l' { workers = set l.workers i w' })
  Keeps-Sound l l' i w w' s at k = record {
    next = k.next;
    taken = k.taken;
    counted = k.counted;
    accounted =
        omega (arith, s.accounted, k.accounted, sum_workers-set is_sending l.workers i w w' at);
  }

  happens-Sound :
      (e : LoadEvent) (l l' : Load)
      → Sound l
      → happens cfg pacer value marshal encode e l ≡ some l'
      → Sound l'
  unfolding happens
  happens-Sound cancel l l' s h =
      subst Sound (some_injective h)
        (record { next = s.next; taken = s.taken; counted = s.counted; accounted = s.accounted })
  happens-Sound (act i a) l l' s h = elim (Option-cases (get_elem? l.workers i)) [
    | inl e ↦ absurd (ground arith)
    | inr (w, at) ↦ elim (Option-cases (acts cfg pacer value marshal encode w a l)) [
      | inl e ↦ absurd (ground arith)
      | inr ((l1, w'), done) ↦
          let same : record l1 { workers = set l.workers i w' } ≡ l' = ground arith in
          subst Sound same (Keeps-Sound l l1 i w w' s at (acts-Keeps w a l l1 w' s done))
    ]
  ]

  run_workers-Sound :
      (es : List LoadEvent) (l l' : Load)
      → Sound l
      → run_workers cfg pacer value marshal encode es l ≡ some l'
      → Sound l'
  unfolding run_workers
  run_workers-Sound [] l l' s h = subst Sound (some_injective h) s
  run_workers-Sound (e ∷ es) l l' s h =
      elim (Option-cases (happens cfg pacer value marshal encode e l)) [
        | inl bad ↦ absurd (ground arith)
        | inr (l1, done) ↦ run_workers-Sound es l1 l' (happens-Sound e l l1 s done) (ground arith)
      ]

  new_load-Sound : (n : ℕ) → Sound (new_load n)
  unfolding new_load numbers_below count_rounds is_sending
  new_load-Sound n = record {
    next = refl;
    taken = refl;
    counted = refl;
    accounted = omega (arith, sum_workers-replicate is_sending n);
  }

  pub run_workers-new_load :
      (n : ℕ) (es : List LoadEvent) (l : Load)
      → run_workers cfg pacer value marshal encode es (new_load n) ≡ some l
      → Sound l
  run_workers-new_load n es l h = run_workers-Sound es (new_load n) l (new_load-Sound n) h
