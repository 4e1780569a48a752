-- ===== src/Inspector/Registers.antt =====
-- `New` on a registry: which configurations it makes an inspector for.
use remote_write_inspector.Prelude.{
  ◌≡◌, refl, sym, subst, ◌↔◌, inl, inr, Bool, true, false, List, [], ◌++◌, Option, none, some,
  arith, Bool-cases, Option-cases,
}
use remote_write_inspector.Prelude.Bytes.{Bytes}
use remote_write_inspector.Prelude.Int.{ℤ, pos, ltb_ℤ, ◌+ℤ◌}
use remote_write_inspector.Identity.Types.{IdentitySet, ok}
use remote_write_inspector.Identity.{new_identity_set, names_from_defs}
use remote_write_inspector.Identity.Fields.{Distinct, new_identity_set-ok}
use remote_write_inspector.Config.Types.{Config}
use remote_write_inspector.Config.{reserved_names, normalize}
use remote_write_inspector.Config.Projections.{Accepted, normalize_top_series_labels_iff}
use remote_write_inspector.Config.Normal.{Positive, normalize-Normal}
use remote_write_inspector.Capture.{
  CaptureConfig, SampleCapture, Matcher, constrained, new_sample_capture,
}
use remote_write_inspector.Metrics.{outputs, new_metrics, capture_collectors, register_all}
use remote_write_inspector.Metrics.Labels.{names_of}
use remote_write_inspector.Metrics.Registry.{Registry, some_reserved}
use remote_write_inspector.Metrics.Registered.{
  AllValid, any_reserved, register_all_total, register_all-reserved,
}
use remote_write_inspector.Metrics.Valid.{
  new_metrics-AllValid, new_metrics-reserved, capture_collectors-AllValid,
}
use remote_write_inspector.Metrics.Fresh.{prefix, Clear, new_names}
use remote_write_inspector.Inspector.Types.{Inspector}
use remote_write_inspector.Inspector.Start.{Started, new_capture, new_inspector, inspector_of}
use remote_write_inspector.Inspector.Made.{Made, new_inspector-Made, Made-new_inspector}

-- The capture configuration, none or one with a selector that the parser accepts.
abbrev pub CaptureAccepted : Option CaptureConfig → Option (List Matcher) → Type 0
CaptureAccepted none matchers = Unit {0}
CaptureAccepted (some c) none = ⊥
CaptureAccepted (some c) (some matchers) =
    Positive c.duration
    × Positive c.max_samples
    × Positive c.rate
    × (ltb_ℤ c.label_bytes (pos 2) ≡ false)
    × (constrained matchers ≡ true)

-- The configuration that `normalize` makes of one is accepted.
pub record Acceptable {F : Type 0} (rate : F → Bool) (config : Config F)
    (matchers : Option (List Matcher)) (cfg : Config F) (ids : IdentitySet) : Type 0 where
  pub normalized : normalize rate config ≡ inr cfg
  pub identified : new_identity_set cfg.identity_names cfg.max_identity_length ≡ ok ids
  pub unreserved : some_reserved (outputs cfg.top_series_labels) ≡ false
  pub capture : CaptureAccepted cfg.capture matchers

new_sample_capture_accepted :
    (c : CaptureConfig) (ms : List Matcher) (now : ℤ)
    → CaptureAccepted (some c) (some ms)
    → (session : SampleCapture) × (new_sample_capture c ms now ≡ some session)
unfolding new_sample_capture
new_sample_capture_accepted c ms now (a, b, r, l, k) = (
  record {
    cfg = c;
    matchers = ms;
    deadline = now +ℤ c.duration;
    attempts = 0;
    window_start = now;
    window_count = 0;
  },
  rw (a, b, r, l, k) refl,
)

new_sample_capture_only :
    (c : CaptureConfig) (ms : List Matcher) (now : ℤ) (session : SampleCapture)
    → new_sample_capture c ms now ≡ some session
    → CaptureAccepted (some c) (some ms)
unfolding new_sample_capture
new_sample_capture_only c ms now session h = ground arith

-- The projections of a configuration that `normalize` returned.
top_series_labels-Accepted :
    {F : Type 0} (rate : F → Bool) (config cfg : Config F)
    → normalize rate config ≡ inr cfg
    → Accepted (cfg.identity_names ++ reserved_names) [] [] cfg.top_series_labels
top_series_labels-Accepted rate config cfg h =
    let n = normalize-Normal rate config cfg h in
    let (a, same) =
      (normalize_top_series_labels_iff cfg.identity_names cfg.top_series_labels
          cfg.top_series_labels).0
        n.top_series_labels in
    subst (Accepted (cfg.identity_names ++ reserved_names) [] []) (sym same) a

module _ (registry : Registry) where
  open registry use {Reg, register, registered_names}

  new_capture_accepted :
      (names : List Bytes) (config : Option CaptureConfig) (matchers : Option (List Matcher))
      (now : ℤ) (reg : Reg)
      → CaptureAccepted config matchers
      → ((r' : Reg) × (register_all register (capture_collectors names) reg ≡ some r'))
      → (reg' : Reg) × (session : Option SampleCapture) × (new_capture register names config
            matchers now reg
          ≡ some (reg', session))
  unfolding new_capture
  new_capture_accepted names none matchers now reg a k = (reg, none, refl)
  new_capture_accepted names (some c) none now reg a k = absurd a
  new_capture_accepted names (some c) (some ms) now reg a (r', kept) =
      let (session, e) = new_sample_capture_accepted c ms now a in
      (r', some session, rw e (rw kept refl))

  new_capture_only :
      (names : List Bytes) (config : Option CaptureConfig) (matchers : Option (List Matcher))
      (now : ℤ) (reg reg' : Reg) (session : Option SampleCapture)
      → new_capture register names config matchers now reg ≡ some (reg', session)
      → CaptureAccepted config matchers
  unfolding new_capture
  new_capture_only names none matchers now reg reg' session h = tt
  new_capture_only names (some c) none now reg reg' session h = absurd (ground arith)
  new_capture_only names (some c) (some ms) now reg reg' session h =
      elim (Option-cases (new_sample_capture c ms now)) [
        | inl e ↦ absurd (ground arith)
        | inr (made, e) ↦ new_sample_capture_only c ms now made e
      ]

  module _ {F : Type 0} (rate : F → Bool) (config : Config F) (matchers : Option (List Matcher))
      (started : Started) (reg : Reg) (clear : Clear (registered_names reg) prefix) where
    -- Where the registration and the capture session succeed.
    Acceptable-Made :
        (cfg : Config F) (ids : IdentitySet)
        → Acceptable rate config matchers cfg ids
        → (reg' : Reg) × (i : Inspector F) × Made register rate config matchers started reg reg' i
    Acceptable-Made cfg ids q =
        let (d, s, same, _) =
          new_identity_set-ok cfg.identity_names cfg.max_identity_length ids q.identified in
        let ps = cfg.top_series_labels in
        let names = names_from_defs ids.defs in
        let (fresh, fresh') = new_names (registered_names reg) names ps clear in
        let valid : AllValid (new_metrics names ps) =
          subst (λ ns. AllValid (new_metrics ns ps)) (sym same)
            (new_metrics-AllValid cfg.identity_names d s ps
              (top_series_labels-Accepted rate config cfg q.normalized) q.unreserved) in
        let valid' : AllValid (capture_collectors names) =
          subst (λ ns. AllValid (capture_collectors ns)) (sym same)
            (capture_collectors-AllValid cfg.identity_names d s) in
        let (reg1, kept, held) =
          register_all_total registry (new_metrics names ps) reg valid fresh in
        let (reg2, kept', _) =
          register_all_total registry (capture_collectors names) reg1 valid'
            (subst (λ old. Distinct old (names_of (capture_collectors names))) (sym held) fresh') in
        let (reg', session, made) =
          new_capture_accepted names cfg.capture matchers started.capture reg1 q.capture
            (reg2, kept') in
        (
          reg',
          inspector_of cfg ids session started,
          record {
            cfg = cfg;
            ids = ids;
            reg1 = reg1;
            session = session;
            normalized = q.normalized;
            identified = q.identified;
            collected = kept;
            captured = made;
            made = refl;
          },
        )

    Made-Acceptable :
        (reg' : Reg) (i : Inspector F)
        → (m : Made register rate config matchers started reg reg' i)
        → Acceptable rate config matchers m.cfg m.ids
    Made-Acceptable reg' i m =
        let (d, s, same, _) =
          new_identity_set-ok m.cfg.identity_names m.cfg.max_identity_length m.ids m.identified in
        let ps = m.cfg.top_series_labels in
        let cs = new_metrics (names_from_defs m.ids.defs) ps in
        record {
          normalized = m.normalized;
          identified = m.identified;
          unreserved = elim (Bool-cases (some_reserved (outputs ps))) [
            | inr f ↦ f
            | inl t ↦
                let taken : any_reserved cs ≡ true =
                  subst (λ ns. any_reserved (new_metrics ns ps) ≡ true) (sym same)
                    (new_metrics-reserved m.cfg.identity_names d s ps
                      (top_series_labels-Accepted rate config m.cfg m.normalized) t) in
                absurd (ground (arith, register_all-reserved registry cs reg taken, m.collected))
          ];
          capture =
              new_capture_only (names_from_defs m.ids.defs) m.cfg.capture matchers started.capture
                m.reg1 reg' m.session m.captured;
        }

    -- On a registry that holds no name of the program, `New` makes an inspector exactly where
    -- `normalize` and `NewIdentitySet` accept the configuration, no output of a projection begins with
    -- `__`, and the capture session, if one is configured, has positive budgets, room for two bytes of
    -- labels and a selector with a matcher that refuses the empty text.
    pub new_inspector_iff :
        ((reg' : Reg) × (i : Inspector F) × (new_inspector register rate config matchers started reg
            ≡ inr (reg', i)))
        ↔ ((cfg : Config F) × (ids : IdentitySet) × Acceptable rate config matchers cfg ids)
    new_inspector_iff = (
      λ (reg', i, h).
          let m = new_inspector-Made register rate config matchers started reg reg' i h in
          (m.cfg, m.ids, Made-Acceptable reg' i m),
      λ (cfg, ids, q).
          let (reg', i, m) = Acceptable-Made cfg ids q in
          (reg', i, Made-new_inspector register rate config matchers started reg reg' i m),
    )
