-- ===== src/Main/Process.antt =====
-- cmd/remote-write-inspector/main.go: what `main` does after the flags: the server it starts, the signals
-- and the end of the server that it waits for, and its exit code. The flag library ends the program with
-- 2 at a flag that is refused.
use remote_write_inspector.Prelude.{ℕ, Bool, List, [], ◌∷◌, Option, some, if◌then◌else◌, inl, inr}
use remote_write_inspector.Prelude.Bytes.{Bytes}
use remote_write_inspector.Capture.{Matcher}
use remote_write_inspector.Metrics.Registry.{Registry}
use remote_write_inspector.Inspector.Start.{Started}
use remote_write_inspector.Server.Start.{HttpServer, new_server}
use remote_write_inspector.Main.{Flag, default_options, set_flags, configured}

-- The server runs until a signal or its own end, then `Shutdown` runs.
pub data Phase (F : Type 0) : Type 0 where
  serving shutting_down : HttpServer F → Phase F
  exited : ℕ → Phase F

-- A signal; the end of `ListenAndServe`, by `ErrServerClosed` or not; and that of `Shutdown`, by an error
-- or not.
pub data Event : Type 0 where
  signal : Event
  serve_ended shutdown_ended : Bool → Event

-- Both channels are read once: what comes later stays in their buffers.
unfoldable pub step : {F : Type 0} → Phase F → Event → Phase F
step (serving server) signal = shutting_down server
step (serving server) (serve_ended closed) = exited (if closed then 0 else 1)
step (serving server) (shutdown_ended failed) = serving server
step (shutting_down server) (shutdown_ended failed) = exited (if failed then 1 else 0)
step (shutting_down server) signal = shutting_down server
step (shutting_down server) (serve_ended closed) = shutting_down server
step (exited code) event = exited code

unfoldable pub run : {F : Type 0} → Phase F → List Event → Phase F
run phase [] = phase
run phase (event ∷ events) = run (step phase event) events

-- `main` up to the `select`.
unfoldable pub launch :
    (registry : Registry)
    → {F : Type 0} → (F → Bool)
    → (Bytes → Bytes)
    → F
    → List (Flag F)
    → Bool
    → Option (List Matcher)
    → Started
    → Phase F
launch registry rate_out_of_range trim_space rate flags show_version matchers started =
    elim (set_flags trim_space flags (default_options rate)) [
      | inl e ↦ exited 2
      | inr o ↦
          if show_version
          then exited 0
          else elim (new_server registry rate_out_of_range (configured o) matchers started
              (some registry.fresh)) [ inl e ↦ exited 2 | inr (reg, server) ↦ serving server ]
    ]
