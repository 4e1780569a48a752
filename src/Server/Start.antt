-- ===== src/Server/Start.antt =====
-- internal/inspector/server.go: `NewServer`, with the routes of its multiplexer. The collectors of the
-- Go runtime and of the process are the registry library's.
use remote_write_inspector.Prelude.{Bool, List, [], ◌∷◌, Option, none, some, ◌⊎◌, inl, inr, ◌>>=◌}
use remote_write_inspector.Prelude.Bytes.{Bytes, codes}
use remote_write_inspector.Prelude.Int.{ℤ}
use remote_write_inspector.Config.Types.{Config}
use remote_write_inspector.Config.{seconds}
use remote_write_inspector.Capture.{Matcher}
use remote_write_inspector.Metrics.Registry.{Registry}
use remote_write_inspector.Inspector.Types.{Inspector, NewError}
use remote_write_inspector.Inspector.Start.{Started, new_inspector}

-- The handlers that the multiplexer knows.
pub data Handler : Type 0 where
  metrics_handler ok_handler receive_handler : Handler

abbrev pub routes : List (Bytes × Handler)
routes =
    (codes "/metrics", metrics_handler)
    ∷ (codes "/-/healthy", ok_handler)
    ∷ (codes "/-/ready", ok_handler)
    ∷ (codes "/api/v1/receive", receive_handler)
    ∷ (codes "/receive", receive_handler)
    ∷ []

pub record HttpServer (F : Type 0) : Type 0 where
  pub address : Bytes
  pub handlers : List (Bytes × Handler)
  pub read_header_timeout : ℤ
  pub inspector : Inspector F

pub data ServerError : Type 0 where
  runtime_collector : ServerError
  not_made : NewError → ServerError

-- What `NewServer` returns for an inspector.
unfoldable pub server_of : {F : Type 0} → Inspector F → HttpServer F
server_of i = record {
  address = i.cfg.listen_address;
  handlers = routes;
  read_header_timeout = seconds 10;
  inspector = i;
}

module _ (registry : Registry) where
  open registry use {Reg, fresh, register, register_go, register_process}

  -- A registry that is nil is replaced by a new one.
  unfoldable pub registry_or_new : Option Reg → Reg
  registry_or_new none = fresh
  registry_or_new (some reg) = reg

  unfoldable pub register_runtime : Reg → Option Reg
  register_runtime reg = do reg1 ← register_go reg; register_process reg1

  -- `NewServer`: the registry with what was registered, and the server.
  unfoldable pub new_server :
      {F : Type 0}
      → (F → Bool)
      → Config F
      → Option (List Matcher)
      → Started
      → Option Reg
      → ServerError ⊎ (Reg × HttpServer F)
  new_server rate_out_of_range cfg matchers started reg =
      elim (register_runtime (registry_or_new reg)) [
        | none ↦ inl runtime_collector
        | some reg1 ↦ elim (new_inspector register rate_out_of_range cfg matchers started reg1) [
          | inl e ↦ inl (not_made e)
          | inr (reg2, i) ↦ inr (reg2, server_of i)
        ]
      ]
