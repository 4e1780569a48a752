-- ===== src/Main/Exits.antt =====
-- With which code the program ends.
use remote_write_inspector.Prelude.{
  ℕ, ◌≢◌, ◌≡◌, refl, ap, sym, ◌<◌, ◌∙◌, ◌↔◌, ◌⊎◌, inl, inr, Bool, true, false, List, [], ◌∷◌, ◌++◌,
  Option, some, if◌then◌else◌, arith,
}
use remote_write_inspector.Prelude.Bytes.{Bytes}
use remote_write_inspector.Config.Types.{Config}
use remote_write_inspector.Config.Projections.{sum-cases}
use remote_write_inspector.Identity.Types.{IdentitySet}
use remote_write_inspector.Capture.{Matcher}
use remote_write_inspector.Metrics.Registry.{Registry}
use remote_write_inspector.Inspector.Start.{Started}
use remote_write_inspector.Inspector.Registers.{Acceptable}
use remote_write_inspector.Server.Start.{HttpServer, new_server, registry_or_new}
use remote_write_inspector.Server.Started.{new_server_iff}
use remote_write_inspector.Main.{Flag, Options, default_options, set_flags, configured}
use remote_write_inspector.Main.Process.{
  Phase, serving, shutting_down, exited, Event, signal, serve_ended, shutdown_ended, step, run,
  launch,
}

code_of : (F : Type 0) {n m : ℕ} → ◌≡◌ {A = Phase F} (exited n) (exited m) → n ≡ m
code_of F e = ground arith

run-exited :
    {F : Type 0} (code : ℕ) (events : List Event) → run {F = F} (exited code) events ≡ exited code
unfolding run step
run-exited code [] = refl
run-exited code (event ∷ events) = run-exited code events

-- A server that ends, or is shut down, does not make the program end with 2.
run-ended :
    {F : Type 0} (b : Bool) (n m : ℕ) (events : List Event)
    → n < 2
    → m < 2
    → run {F = F} (exited (if b then n else m)) events ≢ exited 2
run-ended {F} true n m events h k e =
    absurd (omega (arith, h, code_of F (sym (run-exited n events) ∙ e)))
run-ended {F} false n m events h k e =
    absurd (omega (arith, k, code_of F (sym (run-exited m events) ∙ e)))

-- Neither a running server nor one that shuts down makes the program end with 2.
run-shutting_down :
    {F : Type 0} (server : HttpServer F) (events : List Event)
    → run (shutting_down server) events ≢ exited 2
unfolding run step
run-shutting_down server [] e = absurd (ground arith)
run-shutting_down server (signal ∷ events) e = run-shutting_down server events e
run-shutting_down server (serve_ended closed ∷ events) e = run-shutting_down server events e
run-shutting_down server (shutdown_ended failed ∷ events) e =
    run-ended failed 1 0 events (omega arith) (omega arith) e

run-serving :
    {F : Type 0} (server : HttpServer F) (events : List Event)
    → run (serving server) events ≢ exited 2
unfolding run step
run-serving server [] e = absurd (ground arith)
run-serving server (signal ∷ events) e = run-shutting_down server events e
run-serving server (shutdown_ended failed ∷ events) e = run-serving server events e
run-serving server (serve_ended closed ∷ events) e =
    run-ended closed 0 1 events (omega arith) (omega arith) e

-- While `Shutdown` runs, other events change nothing.
abbrev pub NoShutdownEnd : List Event → Type 0
NoShutdownEnd [] = Unit {0}
NoShutdownEnd (shutdown_ended failed ∷ events) = ⊥
NoShutdownEnd (signal ∷ events) = NoShutdownEnd events
NoShutdownEnd (serve_ended closed ∷ events) = NoShutdownEnd events

run-shutdown_ended :
    {F : Type 0} (server : HttpServer F) (meanwhile after : List Event) (failed : Bool)
    → NoShutdownEnd meanwhile
    → run (shutting_down server) (meanwhile ++ (shutdown_ended failed ∷ after))
      ≡ exited (if failed then 1 else 0)
unfolding run step
run-shutdown_ended server [] after failed h = run-exited (if failed then 1 else 0) after
run-shutdown_ended server (signal ∷ events) after failed h =
    run-shutdown_ended server events after failed h
run-shutdown_ended server (serve_ended closed ∷ events) after failed h =
    run-shutdown_ended server events after failed h
run-shutdown_ended server (shutdown_ended other ∷ events) after failed h = absurd h

module _ (registry : Registry) {F : Type 0} (out_of_range : F → Bool) (trim_space : Bytes → Bytes)
    (rate : F) (flags : List (Flag F)) (matchers : Option (List Matcher)) (started : Started) where
  -- Started with flags that are parsed and without `-version`: where `New` does not accept the
  -- configuration that the flags make, the program ends with the code 2 at once, and else it does not
  -- end with 2, whatever signals come and however the server ends; unless it ended at once, and where a
  -- signal comes first, the program ends when `Shutdown` does, with 1 if that fails and with 0 if not,
  -- whatever else happens before that and after.
  pub launch_exits :
      (o : Options F) (events meanwhile after : List Event) (failed : Bool)
      → set_flags trim_space flags (default_options rate) ≡ inr o
      → NoShutdownEnd meanwhile
      → let accepted =
          (cfg : Config F) × (ids : IdentitySet) × Acceptable out_of_range
            (configured o)
            matchers
            cfg
            ids in
        let phase = launch registry out_of_range trim_space rate flags false matchers started in
        ((phase ≡ exited 2) ↔ (¬ accepted))
        × ((run phase events ≡ exited 2) ↔ (¬ accepted))
        × ((phase ≡ exited 2)
            ⊎ (run phase (signal ∷ (meanwhile ++ (shutdown_ended failed ∷ after)))
                ≡ exited (if failed then 1 else 0)))
  unfolding launch
  launch_exits o events meanwhile after failed parsed quiet =
      let (served, serves) =
        new_server_iff registry out_of_range (configured o) matchers started (some registry.fresh)
          (unfold registry_or_new in registry.fresh_names) in
      elim (sum-cases
        (new_server registry out_of_range (configured o) matchers started (some registry.fresh))) [
          | inl (e, bad) ↦
              let unserved : ¬ (
                  (cfg : Config F) × (ids : IdentitySet) × Acceptable out_of_range (configured o)
                    matchers cfg ids) =
                λ accepted. (let (reg, server, good) = serves accepted in ground arith) in
              let ended : launch registry out_of_range trim_space rate flags false matchers started
                  ≡ exited 2 =
                rw (parsed, launch) (rw bad refl) in
              (
                ((λ e. unserved), λ e. ended),
                ((λ e. unserved), λ e. ap (λ p. run p events) ended ∙ run-exited 2 events),
                inl ended,
              )
          | inr ((reg, server), good) ↦
              let same : launch registry out_of_range trim_space rate flags false matchers started
                  ≡ serving server =
                rw (parsed, launch) (rw good refl) in
              let accepted = served (reg, server, good) in
              let rest = meanwhile ++ (shutdown_ended failed ∷ after) in
              (
                ((λ e. absurd (ground arith)), λ refused. absurd (refused accepted)),
                (
                  (λ e. absurd (run-serving server events (ap (λ p. run p events) (sym same) ∙ e))),
                  λ refused. absurd (refused accepted),
                ),
                inr (
                    ap (λ p. run p (signal ∷ rest)) same
                    ∙ (unfold run step in run-shutdown_ended server meanwhile after failed quiet)),
              )
        ]
