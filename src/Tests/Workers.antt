-- ===== src/Tests/Workers.antt =====
-- The workers and the report of the load generator at concrete inputs.
use remote_write_inspector.Prelude.{
  ◌*◌, ◌≤◌, ◌≢◌, ◌≡◌, refl, true, List, [], ◌∷◌, ◌++◌, Option, none, some, arith, replicate, drop,
}
use remote_write_inspector.Prelude.Bytes.{Bytes, codes, bytes_eq}
use remote_write_inspector.Prelude.Int.{pos}
use remote_write_inspector.Loadgen.Stats.{add_uint64, new_load_stats}
use remote_write_inspector.Loadgen.Requests.{
  GeneratedSeries, GeneratedRequest, generate_request, itoa, itoa_digits, path_index, cycle_len,
}
use remote_write_inspector.Loadgen.Pacer.{Pacer, Selected, wait, wait_for}
use remote_write_inspector.Loadgen.Workers.{
  Worker, Load, Action, LoadEvent, acts, polls, sends, happens, run_workers, new_load, take_number,
}
use remote_write_inspector.Loadgen.Sound.{Sound}
use remote_write_inspector.Loadgen.Numbered.{run_workers-new_load}
use remote_write_inspector.Loadgen.Ends.{action_count, run_workers_ends}
use remote_write_inspector.Loadgen.Report.{Snapshot, snapshot_of, status_summary}
use remote_write_inspector.Loadgen.Statuses.{
  read_summary, status_entries, error_entry, read_summary-status_summary,
}
use remote_write_inspector.Identity.Types.{IdentitySet, ok}
use remote_write_inspector.Identity.{
  identity_definition, contains_string, collect_definitions, new_identity_set, names_from_defs, has,
  resolve, identity_get,
}
use remote_write_inspector.Loadgen.Headers.{lower, header_get, set_remote_write_headers}
use remote_write_inspector.Loadgen.Identified.{
  printable, expected_value, SmallCounts, resolve-generate_request,
}
use remote_write_inspector.Tests.Loads.{small_load, value_one, same_draws}

abbrev no_ticker : Pacer
no_ticker = record { ticker = none }

abbrev some_body : List GeneratedSeries → Option Bytes
some_body series = some (codes "ab")

abbrev pub unpacked : Bytes → Bytes
unpacked s = s

-- Two workers go on, one takes a number, and the context ends.
abbrev four_events : List LoadEvent
four_events =
    LoadEvent.act 0 (Action.polled Selected.ticked)
    ∷ LoadEvent.act 1 (Action.polled Selected.ticked)
    ∷ LoadEvent.act 1 (Action.generated 5 same_draws true)
    ∷ LoadEvent.cancel
    ∷ []

abbrev pub first_request : GeneratedRequest
first_request = record {
  body = codes "ab";
  tenant = codes "tenant-0";
  sink = codes "sink-0";
  path = codes "path-0";
  writer = codes "writer-0";
  sizes = record { series = 2; samples = 2; body_bytes = 2; decoded_bytes = 2 };
}

abbrev after_four : Load
after_four = record {
  next = 1;
  stats = new_load_stats;
  cancelled = true;
  workers = Worker.checked ∷ Worker.sending first_request ∷ [];
  taken = 0 ∷ [];
  rounds = [];
}

four_events_run :
    run_workers small_load no_ticker value_one some_body unpacked four_events (new_load 2)
    ≡ some after_four
unfolding run_workers happens acts polls sends new_load take_number generate_request itoa
    itoa_digits path_index cycle_len wait wait_for add_uint64
four_events_run = refl

after_four-Sound : Sound after_four
after_four-Sound =
    run_workers-new_load small_load no_ticker value_one some_body unpacked 2 four_events after_four
      four_events_run

no_events :
    run_workers small_load no_ticker value_one some_body unpacked [] after_four ≡ some after_four
unfolding run_workers
no_events = refl

sending-ne-finished : Worker.sending first_request ≢ Worker.finished
sending-ne-finished e = cc

run_workers_ends_example :
    (action_count [] ≤ 3 * 2)
    × ((a : Action) × (l' : Load) × (happens small_load no_ticker value_one some_body unpacked
            (LoadEvent.act 1 a)
            after_four
          ≡ some l'))
run_workers_ends_example =
    run_workers_ends small_load no_ticker value_one some_body unpacked after_four after_four [] 1
      (Worker.sending first_request) after_four-Sound refl no_events refl sending-ne-finished

abbrev some_statuses : Snapshot
some_statuses = record (snapshot_of new_load_stats) {
  status_codes = replicate 204 0 ++ (7 ∷ 0 ∷ 3 ∷ []);
  marshal_errors = 2;
}

read_summary-status_summary_example : read_summary (status_summary some_statuses) ≡ (
    status_entries 100 (drop 100 (replicate 204 0 ++ (7 ∷ 0 ∷ 3 ∷ [])))
    ++ (error_entry (codes "transport_error") some_statuses.transport_errors
        ++ error_entry (codes "marshal_error") 2))
read_summary-status_summary_example = read_summary-status_summary some_statuses

-- The identity of the first request.
abbrev two_names : List Bytes
two_names = codes "writer_id" ∷ codes "tenant" ∷ []

small_counts : SmallCounts small_load
small_counts = omega arith

first_made :
    generate_request small_load value_one 5 same_draws some_body unpacked 0 ≡ some first_request
unfolding generate_request itoa itoa_digits path_index cycle_len
first_made = refl

abbrev two_fields : IdentitySet
two_fields = record {
  defs =
      record {
        name = codes "writer_id";
        headers =
            codes "X-Obs-Writer-ID"
            ∷ codes "X-Remote-Write-Inspector-Writer-ID"
            ∷ codes "X-RWI-Writer-ID"
            ∷ [];
      }
      ∷ record {
        name = codes "tenant";
        headers =
            codes "X-Scope-OrgID"
            ∷ codes "X-Remote-Write-Inspector-Tenant"
            ∷ codes "X-RWI-Tenant"
            ∷ [];
      }
      ∷ [];
  max_identity_length = pos 128;
}

two_names_accepted : new_identity_set two_names (pos 128) ≡ ok two_fields
unfolding new_identity_set collect_definitions identity_definition contains_string bytes_eq
two_names_accepted = refl

tenant_known : has two_fields (codes "tenant") ≡ true
unfolding has contains_string names_from_defs bytes_eq
tenant_known = refl

same_letters_kept : (s : Bytes) → lower (unpacked s) ≡ lower s
same_letters_kept s = refl

nothing_trimmed : (s : Bytes) → printable s ≡ true → unpacked s ≡ s
nothing_trimmed s h = refl

resolve-generate_request_example :
    identity_get
      (resolve unpacked
        (header_get unpacked (set_remote_write_headers unpacked first_request []))
        two_fields)
      (codes "tenant")
    ≡ expected_value small_load 0 (codes "tenant")
resolve-generate_request_example =
    resolve-generate_request unpacked unpacked same_letters_kept nothing_trimmed small_load
      value_one 5 same_draws some_body unpacked 0 first_request [] two_names 128 two_fields
      (codes "tenant") first_made small_counts two_names_accepted (omega arith) tenant_known
