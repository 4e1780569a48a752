-- ===== src/Inspector/Made.antt =====
-- `New` returns an inspector exactly when each of its steps succeeds.
use remote_write_inspector.Prelude.{◌≡◌, inl, inr, Bool, Option, some, Option-cases, arith, List}
use remote_write_inspector.Config.Types.{Config}
use remote_write_inspector.Config.Projections.{sum-cases}
use remote_write_inspector.Config.{normalize}
use remote_write_inspector.Identity.Types.{IdentitySet, ok}
use remote_write_inspector.Identity.Fields.{Result-cases}
use remote_write_inspector.Identity.{new_identity_set, names_from_defs}
use remote_write_inspector.Capture.{SampleCapture, Matcher}
use remote_write_inspector.Metrics.{Collector, new_metrics, register_all}
use remote_write_inspector.Inspector.Types.{Inspector}
use remote_write_inspector.Inspector.Start.{Started, new_capture, new_inspector, inspector_of}

module _ {F R : Type 0} (register : Collector → R → Option R) (rate : F → Bool) (config : Config F)
    (matchers : Option (List Matcher)) (started : Started) (reg : R) where
  -- The steps of `New` with what each returns.
  pub record Made (reg' : R) (i : Inspector F) : Type 0 where
    pub cfg : Config F
    pub ids : IdentitySet
    pub reg1 : R
    pub session : Option SampleCapture
    pub normalized : normalize rate config ≡ inr cfg
    pub identified : new_identity_set cfg.identity_names cfg.max_identity_length ≡ ok ids
    pub collected :
        register_all register (new_metrics (names_from_defs ids.defs) cfg.top_series_labels) reg
        ≡ some reg1
    pub captured :
        new_capture register (names_from_defs ids.defs) cfg.capture matchers started.capture reg1
        ≡ some (reg', session)
    pub made : i ≡ inspector_of cfg ids session started

  pub new_inspector-Made :
      (reg' : R) (i : Inspector F)
      → new_inspector register rate config matchers started reg ≡ inr (reg', i)
      → Made reg' i
  unfolding new_inspector
  new_inspector-Made reg' i h = elim (sum-cases (normalize rate config)) [
    | inl (e, bad) ↦ absurd (ground arith)
    | inr (cfg, good) ↦
        elim (Result-cases (new_identity_set cfg.identity_names cfg.max_identity_length)) [
          | inr (e, bad) ↦ absurd (ground arith)
          | inl (ids, fine) ↦
              let names = names_from_defs ids.defs in
              elim (Option-cases
                (register_all register (new_metrics names cfg.top_series_labels) reg)) [
                  | inl bad ↦ absurd (ground arith)
                  | inr (reg1, kept) ↦
                      elim (Option-cases
                        (new_capture register names cfg.capture matchers started.capture reg1)) [
                          | inl bad ↦ absurd (ground arith)
                          | inr ((reg2, session), done) ↦ record {
                            cfg = cfg;
                            ids = ids;
                            reg1 = reg1;
                            session = session;
                            normalized = good;
                            identified = fine;
                            collected = kept;
                            captured = ground arith;
                            made = ground arith;
                          }
                        ]
                ]
        ]
  ]

  pub Made-new_inspector :
      (reg' : R) (i : Inspector F)
      → Made reg' i
      → new_inspector register rate config matchers started reg ≡ inr (reg', i)
  unfolding new_inspector
  Made-new_inspector reg' i m =
      ground (arith, m.normalized, m.identified, m.collected, m.captured, m.made)
