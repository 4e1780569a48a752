-- ===== src/Loadgen/Workers.antt =====
-- cmd/rwi-loadgen/main.go: `runWorker` by all workers. They share the request counter, the statistics
-- and the context; an event is what one worker does between two looks at these, so that a run is any
-- interleaving of the workers. `none` is an event that cannot happen in the state.
use remote_write_inspector.Prelude.{
  ℕ, Bool, true, false, not, ◌&&◌, List, [], ◌∷◌, Option, none, some, if◌then◌else◌, get_elem?, set,
  replicate, ◌>>=◌,
}
use remote_write_inspector.Prelude.Bytes.{Bytes}
use remote_write_inspector.Prelude.Int.{ℤ}
use remote_write_inspector.Loadgen.{LoadConfig}
use remote_write_inspector.Loadgen.Stats.{
  LoadStats, Round, not_marshalled, not_built, interrupted, failed, answered, add_uint64,
  count_round, new_load_stats,
}
use remote_write_inspector.Loadgen.Requests.{
  Draws, GeneratedSeries, GeneratedRequest, generate_request,
}
use remote_write_inspector.Loadgen.Pacer.{Pacer, Selected, wait}

-- A worker at `Wait`, past the test of the context, in `client.Do` with its request, and returned.
pub data Worker : Type 0 where
  waiting checked finished : Worker
  sending : GeneratedRequest → Worker

-- `next` is `requestSeq`. The program does not keep what stands in `taken` and `rounds`: the numbers
-- that were taken and the rounds that were counted, the last ones first.
pub record Load : Type 0 where
  pub next : ℕ
  pub stats : LoadStats
  pub cancelled : Bool
  pub workers : List Worker
  pub taken : List ℕ
  pub rounds : List Round

-- `Wait` and the test of the context; the request of the next number, at a time, with draws, and built or
-- not; an answer with its status and latency; and an error of the client with its latency.
pub data Action : Type 0 where
  polled : Selected → Action
  generated : ℕ → Draws → Bool → Action
  responded : ℤ → ℤ → Action
  errored : ℤ → Action

-- The end of the context, and an action of a worker.
pub data LoadEvent : Type 0 where
  cancel : LoadEvent
  act : ℕ → Action → LoadEvent

abbrev is_cancelled : Selected → Bool
is_cancelled Selected.cancelled = true
is_cancelled Selected.ticked = false

-- A round is counted; `none` would be a panic.
unfoldable pub count_in : Round → Worker → Load → Option (Load × Worker)
count_in r w l = do
  stats ← count_round r l.stats
  some (record l { stats = stats; rounds = r ∷ l.rounds }, w)

-- The context ends only once, and `Wait` sees its end only after it.
unfoldable pub polls : Pacer → Selected → Load → Option (Load × Worker)
polls pacer seen l =
    if is_cancelled seen && not l.cancelled
    then none
    else if not (wait pacer seen)
    then some (l, finished)
    else if l.cancelled
    then some (l, finished)
    else some (l, checked)

-- `atomic.AddUint64(requestSeq, 1) - 1`.
unfoldable pub take_number : Load → Load
take_number l = record l { next = add_uint64 l.next 1; taken = l.next ∷ l.taken }

unfoldable pub errors : ℤ → Load → Option (Load × Worker)
errors latency l =
    if l.cancelled then count_in interrupted finished l else count_in (failed latency) waiting l

module _ {F : Type 0} (cfg : LoadConfig F) (pacer : Pacer) (value : ℕ → ℤ → ℕ → ℕ)
    (marshal : List GeneratedSeries → Option Bytes) (encode : Bytes → Bytes) where
  -- What follows `generateRequest` and `http.NewRequestWithContext`.
  unfoldable pub sends : Bool → Option GeneratedRequest → Load → Option (Load × Worker)
  sends built none l = count_in not_marshalled waiting l
  sends built (some request) l =
      if built then some (l, sending request) else count_in not_built waiting l

  unfoldable pub acts : Worker → Action → Load → Option (Load × Worker)
  acts waiting (polled seen) l = polls pacer seen l
  acts checked (generated now draws built) l =
      sends built (generate_request cfg value now draws marshal encode l.next) (take_number l)
  acts (sending request) (responded status_code latency) l =
      count_in (answered status_code request.sizes latency) waiting l
  acts (sending request) (errored latency) l = errors latency l
  acts w action l = none

  unfoldable pub happens : LoadEvent → Load → Option Load
  happens cancel l = some (record l { cancelled = true })
  happens (act i action) l = do
    w ← get_elem? l.workers i
    (l', w') ← acts w action l
    some (record l' { workers = set l.workers i w' })

  unfoldable pub run_workers : List LoadEvent → Load → Option Load
  run_workers [] l = some l
  run_workers (e ∷ es) l = do l' ← happens e l; run_workers es l'

-- `main` starts the workers.
unfoldable pub new_load : ℕ → Load
new_load n = record {
  next = 0;
  stats = new_load_stats;
  cancelled = false;
  workers = replicate n waiting;
  taken = [];
  rounds = [];
}
