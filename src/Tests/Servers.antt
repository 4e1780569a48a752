-- ===== src/Tests/Servers.antt =====
-- The server and the program at concrete inputs, with a registry that holds names.
use remote_write_inspector.Prelude.{
  ℕ, ◌≡◌, refl, ap, Bool-cases, ◌↔◌, ◌⊎◌, inl, inr, true, false, ◌||◌, List, [], ◌∷◌, ◌++◌, Option,
  none, some, if◌then◌else◌, arith,
}
use remote_write_inspector.Prelude.Bytes.{Bytes, codes, bytes_eq, bytes_eq_sound}
use remote_write_inspector.Prelude.Int.{pos, pos_part}
use remote_write_inspector.Identity.{contains_string}
use remote_write_inspector.Metrics.{Collector}
use remote_write_inspector.Metrics.Registry.{Registry, ValidCollector, starts_with, some_reserved}
use remote_write_inspector.Metrics.{
  append_labels, top_series_label_names, new_metrics, register_all,
}
use remote_write_inspector.Metrics.Labels.{behind, names_of}
use remote_write_inspector.Config.Types.{Config}
use remote_write_inspector.Config.{
  normalize, with_defaults, positive_or, normalize_top_series_labels, normalize_projections,
}
use remote_write_inspector.Identity.Types.{IdentitySet}
use remote_write_inspector.Identity.{
  resolve, resolve_values, new_identity_set, collect_definitions, has, names_from_defs,
}
use remote_write_inspector.Inspector.Registers.{Acceptable}
use remote_write_inspector.Inspector.Labels.{valid_labels}
use remote_write_inspector.Inspector.Ready.{Ready}
use remote_write_inspector.Inspector.Start.{new_inspector, new_capture}
use remote_write_inspector.Server.Receive.{Receiver, Response}
use remote_write_inspector.Server.Start.{
  Handler, routes, HttpServer, new_server, registry_or_new, register_runtime, server_of,
}
use remote_write_inspector.Server.Serving.{HttpRequest, handler_of, serve_all, idle}
use remote_write_inspector.Server.Expected.{AllMay, AllPlain}
use remote_write_inspector.Server.Served.{new_server-serves}
use remote_write_inspector.Main.{Options, default_options, set_flags, configured}
use remote_write_inspector.Main.Process.{launch, run, exited, signal, shutdown_ended}
use remote_write_inspector.Main.Exits.{launch_exits}
use remote_write_inspector.Tests.Inspections.{
  over_100, zero_config, at_start, made, environment, same_reading, same_text,
}
use remote_write_inspector.Tests.Bodies.{decoders, post_request}

abbrev keep_names : Collector → List Bytes → Option (List Bytes)
keep_names c r =
    if some_reserved c.labels || contains_string r c.name then none else some (c.name ∷ r)

abbrev go_name : Bytes
go_name = codes "go_info"

abbrev process_name : Bytes
process_name = codes "process_start_time_seconds"

one_name_more :
    (name p : Bytes) (r : List Bytes)
    → starts_with p name ≡ true
    → (w : Bytes) → contains_string (name ∷ r) w ≡ true
    → (contains_string r w ≡ true) ⊎ (starts_with p w ≡ true)
unfolding contains_string
one_name_more name p r h w e = ground (arith, bytes_eq_sound name w)

keep_names_valid :
    (c : Collector) (r : List Bytes)
    → ValidCollector c
    → contains_string r c.name ≡ false
    → (r' : List Bytes) × (keep_names c r ≡ some r') × (r' ≡ c.name ∷ r)
keep_names_valid c r v fresh = (c.name ∷ r, ground (arith, v.free), refl)

keep_names_reserved :
    (c : Collector) (r : List Bytes) → some_reserved c.labels ≡ true → keep_names c r ≡ none
keep_names_reserved c r h = ground arith

go_prefix : starts_with (codes "go_") go_name ≡ true
unfolding starts_with
go_prefix = refl

process_prefix : starts_with (codes "process_") process_name ≡ true
unfolding starts_with
process_prefix = refl

abbrev name_registry : Registry
name_registry = record {
  Reg = List Bytes;
  fresh = [];
  register = keep_names;
  register_go = λ r. some (go_name ∷ r);
  register_process = λ r. some (process_name ∷ r);
  registered_names = λ r. r;
  fresh_names = refl;
  register_valid = keep_names_valid;
  register_reserved = keep_names_reserved;
  register_go_names =
      λ r clear. (go_name ∷ r, refl, one_name_more go_name (codes "go_") r go_prefix);
  register_process_names = λ r clear.
      (process_name ∷ r, refl, one_name_more process_name (codes "process_") r process_prefix);
}

abbrev kept_names : List Bytes
kept_names = behind (names_of (new_metrics [] [])) (process_name ∷ go_name ∷ [])

abbrev server : HttpServer ℕ
server = server_of made

server_made :
    new_server name_registry over_100 zero_config none at_start none ≡ inr (kept_names, server)
unfolding new_server registry_or_new register_runtime new_inspector normalize
    normalize_top_series_labels with_defaults normalize_projections new_capture new_identity_set
    collect_definitions has contains_string names_from_defs positive_or register_all new_metrics
    some_reserved starts_with bytes_eq append_labels top_series_label_names
server_made = refl

abbrev health_request : HttpRequest
health_request = record {
  path = codes "/-/healthy";
  arrival = post_request;
  reading = same_reading;
  scraped_at = pos 1;
  metrics_status = 200;
}

abbrev three_requests : List HttpRequest
three_requests =
    health_request
    ∷ record health_request { path = codes "/receive" }
    ∷ record health_request { path = codes "//receive" }
    ∷ []

-- The multiplexer redirects one path, and passes on all others.
abbrev one_redirect : Bytes → Bytes → Option ℕ
one_redirect method path = if bytes_eq path (codes "//receive") then some 301 else none

redirect_unrouted : handler_of routes (codes "//receive") ≡ none
unfolding handler_of bytes_eq
redirect_unrouted = refl

redirect_passes :
    (method path : Bytes) (h : Handler)
    → handler_of routes path ≡ some h
    → one_redirect method path ≡ none
redirect_passes method path h e = elim (Bool-cases (bytes_eq path (codes "//receive"))) [
  | inl t ↦
      let same = ap (handler_of routes) (bytes_eq_sound path (codes "//receive") t) in
      absurd (ground (arith, same, redirect_unrouted))
  | inr f ↦ rw f refl
]

requests_plain : AllPlain same_text made.ids three_requests
unfolding bytes_eq valid_labels resolve resolve_values
requests_plain = (refl, refl, (refl, refl, (refl, refl, tt)))

new_server-serves_example :
    (s : Receiver ℕ) × (responses : List Response) × (serve_all environment decoders same_text
        one_redirect server.handlers three_requests
        (idle server)
      ≡ some (s, responses))
    × (s.in_flight ≡ 0)
    × Ready made.cfg made.ids s.inspector
    × AllMay one_redirect decoders (pos_part made.cfg.max_body_bytes) three_requests responses
unfolding server_of
new_server-serves_example =
    new_server-serves name_registry over_100 zero_config none at_start environment decoders
      same_text one_redirect none kept_names server three_requests server_made
      (unfold with_defaults positive_or in omega arith) redirect_passes requests_plain

abbrev as_it_is : Bytes → Bytes
as_it_is s = s

abbrev defaults : Options ℕ
defaults = default_options 1

no_flags : set_flags as_it_is [] defaults ≡ inr defaults
unfolding set_flags
no_flags = refl

launch_exits_example :
    let accepted =
      (cfg : Config ℕ) × (ids : IdentitySet) × Acceptable over_100
        (configured defaults)
        none
        cfg
        ids in
    let phase = launch name_registry over_100 as_it_is 1 [] false none at_start in
    ((phase ≡ exited 2) ↔ (¬ accepted))
    × ((run phase (signal ∷ []) ≡ exited 2) ↔ (¬ accepted))
    × ((phase ≡ exited 2)
        ⊎ (run phase (signal ∷ (signal ∷ [] ++ (shutdown_ended false ∷ [])))
            ≡ exited (if false then 1 else 0)))
launch_exits_example =
    launch_exits name_registry over_100 as_it_is 1 [] none at_start defaults (signal ∷ [])
      (signal ∷ []) [] false no_flags tt
