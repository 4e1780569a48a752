-- ===== src/Server/Started.antt =====
-- For which configurations `NewServer` makes a server, and of which inspector.
use remote_write_inspector.Prelude.{
  ◌≡◌, refl, ap, ◌↔◌, inl, inr, Bool, true, false, List, [], ◌∷◌, Option, some, ◌∙◌, Option-cases,
  arith,
}
use remote_write_inspector.Prelude.Bytes.{Bytes, codes}
use remote_write_inspector.Config.Types.{Config}
use remote_write_inspector.Config.Projections.{sum-cases}
use remote_write_inspector.Identity.Types.{IdentitySet}
use remote_write_inspector.Identity.{contains_string}
use remote_write_inspector.Capture.{Matcher}
use remote_write_inspector.Metrics.Registry.{Registry, starts_with}
use remote_write_inspector.Metrics.Fresh.{prefix, Clear}
use remote_write_inspector.Inspector.Start.{Started, new_inspector}
use remote_write_inspector.Inspector.Registers.{Acceptable, new_inspector_iff}
use remote_write_inspector.Server.Start.{
  HttpServer, server_of, registry_or_new, register_runtime, new_server,
}

-- A name with one prefix does not have the other.
go_other : (w : Bytes) → starts_with (codes "go_") w ≡ true → starts_with prefix w ≡ false
unfolding starts_with
go_other [] h = refl
go_other (c ∷ w) h = ground arith

process_other : (w : Bytes) → starts_with (codes "process_") w ≡ true → starts_with prefix w ≡ false
unfolding starts_with
process_other [] h = refl
process_other (c ∷ w) h = ground arith

go_process :
    (w : Bytes) → starts_with (codes "go_") w ≡ true → starts_with (codes "process_") w ≡ false
unfolding starts_with
go_process [] h = refl
go_process (c ∷ w) h = ground arith

nothing_held : (w : Bytes) → contains_string [] w ≡ false
unfolding contains_string
nothing_held w = refl

module _ (registry : Registry) where
  open registry use {Reg, register, register_go_names, register_process_names, registered_names}

  -- On an empty registry the runtime collectors are registered, and take no name of the program.
  register_runtime-Clear :
      (reg : Reg)
      → registered_names reg ≡ []
      → (reg' : Reg) × (register_runtime registry reg ≡ some reg')
        × Clear (registered_names reg') prefix
  unfolding register_runtime
  register_runtime-Clear reg e =
      let empty = λ (w : Bytes). ap (λ names. contains_string names w) e ∙ nothing_held w in
      let (reg1, go, held1) = register_go_names reg (λ w h. absurd (ground (arith, empty w))) in
      let (reg2, process, held2) = register_process_names reg1 (λ w h. elim (held1 w h) [
        | inl old ↦ absurd (ground (arith, empty w))
        | inr new ↦ go_process w new
      ]) in
      (
        reg2,
        rw go process,
        λ w h. elim (held2 w h) [
          | inr new ↦ process_other w new
          | inl old ↦ elim (held1 w old) [
            | inr new ↦ go_other w new
            | inl older ↦ absurd (ground (arith, empty w))
          ]
        ],
      )

  module _ {F : Type 0} (rate : F → Bool) (config : Config F) (matchers : Option (List Matcher))
      (started : Started) (reg : Option Reg) where
    -- What `NewServer` returns is a server of an inspector that `New` returns.
    pub new_server-Inspector :
        (reg' : Reg) (server : HttpServer F)
        → new_server registry rate config matchers started reg ≡ inr (reg', server)
        → (reg1 : Reg) × (new_inspector register rate config matchers started reg1
            ≡ inr (reg', server.inspector))
          × (server ≡ server_of server.inspector)
    unfolding new_server server_of
    new_server-Inspector reg' server h =
        elim (Option-cases (register_runtime registry (registry_or_new registry reg))) [
          | inl bad ↦ absurd (ground arith)
          | inr (reg1, fine) ↦
              elim (sum-cases (new_inspector register rate config matchers started reg1)) [
                | inl (e, bad) ↦ absurd (ground arith)
                | inr ((reg2, i), made) ↦ (reg1, ground arith, ground arith)
              ]
        ]

    -- On a new registry, `NewServer` makes a server exactly where `New` accepts the configuration:
    -- `normalize` and `NewIdentitySet` accept it, no output of a projection begins with `__`, and the
    -- capture session, if one is configured, has positive budgets, room for two bytes of labels and a
    -- selector with a matcher that refuses the empty text.
    pub new_server_iff :
        registered_names (registry_or_new registry reg) ≡ []
        → ((reg' : Reg) × (server : HttpServer F) × (new_server registry rate config matchers
                started reg
              ≡ inr (reg', server)))
          ↔ ((cfg : Config F) × (ids : IdentitySet) × Acceptable rate config matchers cfg ids)
    unfolding new_server
    new_server_iff e =
        let (reg1, fine, clear) = register_runtime-Clear (registry_or_new registry reg) e in
        let (made, makes) = new_inspector_iff registry rate config matchers started reg1 clear in
        (
          λ (reg', server, h).
              elim (sum-cases (new_inspector register rate config matchers started reg1)) [
                | inl (e, bad) ↦ absurd (ground arith)
                | inr ((reg2, i), run) ↦ made (reg2, i, run)
              ],
          λ (cfg, ids, q).
              let (reg2, i, run) = makes (cfg, ids, q) in
              (reg2, server_of i, rw (fine, new_server) (rw run refl)),
        )
