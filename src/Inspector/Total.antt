-- ===== src/Inspector/Total.antt =====
-- `inspectReceived` on an inspector that is ready: it does not panic, and what its result says.
use remote_write_inspector.Prelude.{
  ℕ, ◌+◌, ◌≡◌, refl, sym, ◌∙◌, ap, subst, Bool, true, false, ◌&&◌, not, List, [], ◌∷◌, some, arith,
  if◌then◌else◌, length, ite,
}
use remote_write_inspector.Prelude.Bytes.{Bytes, bytes_eq_iff}
use remote_write_inspector.Prelude.Int.{ℤ}
use remote_write_inspector.Config.Types.{Config}
use remote_write_inspector.Hash.{unknown_identity, canonical_hash, series_name, host_name}
use remote_write_inspector.Identity.Types.{IdentitySet, RequestIdentity}
use remote_write_inspector.Identity.Resolved.{resolve-has_field}
use remote_write_inspector.Identity.{has, resolve, identity_get, label_values}
use remote_write_inspector.Validate.Reasons.{cross_path_collision}
use remote_write_inspector.Validate.{validate_series}
use remote_write_inspector.Inspector.Types.{
  Inspector, TimeSeries, bad_series, Inspection, Seen, Observation, Environment, Effects, Reading,
}
use remote_write_inspector.Inspector.Observed.{no_evidence, Values-discrete, counter_value}
use remote_write_inspector.Inspector.Recorded.{
  Recorded, nothing-Recorded, counter_value-counter_add,
}
use remote_write_inspector.Inspector.Faults.{any_fault, inspect_all-Found}
use remote_write_inspector.Inspector.Labels.{valid_labels, valid_labels-label_values}
use remote_write_inspector.Inspector.Ready.{Ready}
use remote_write_inspector.Inspector.{
  capture_series, count_samples, counted_samples, update_cache_metrics, check_paths, check_writer,
  inspect_histograms, no_reasons, inspect_series, inspect_all, inspect_received,
}
use remote_write_inspector.Inspector.Judged.{
  Good, sample_count, some_observation, report_series-Good, with_inspector-Good, unless_total,
}
use remote_write_inspector.Inspector.Checks.{
  Fine, report_if, inspect_samples_total, inspect_histograms-Good, check_writer-Good,
  capture_with-Ready,
}
use remote_write_inspector.Inspector.Detectors.{collision_total}

module _ {F : Type 0} (env : Environment) (reading : ℕ → Reading) (cfg : Config F)
    (ids : IdentitySet) (before : Effects) where
  -- The identity is read by the identity set: a field that the set lacks reads as `unknown`.
  module _ (identity : RequestIdentity)
      (known : (q : Bytes) → has ids q ≡ false → identity_get identity q ≡ unknown_identity) where
    check_paths_total :
        {n : ℕ} (series : Seen) (now later : ℤ) (r : Inspection F)
        → Fine env reading cfg ids before identity n r
        → (r' : Inspection F) × (check_paths env reading identity series now later r ≡ some r')
          × Fine env reading cfg ids before identity n r'
    unfolding check_paths
    check_paths_total series now later r g =
        unless_total env reading identity cfg ids before
          r.inspector.cfg.disable_cross_path_collision_detection r _ g
          (λ f.
            let on : cfg.disable_cross_path_collision_detection ≡ false =
              ap (λ c. c.disable_cross_path_collision_detection) (sym g.ready.same_cfg) ∙ f in
            let (i, found, run, ready, same) =
              collision_total cfg ids identity known r.inspector series.details.hash now later
                g.ready on in
            let g' = with_inspector-Good env reading identity cfg ids before i r ready same g in
            let o : Observation = record {
              kind = bad_series;
              reason = cross_path_collision;
              series = series;
              evidence = no_evidence;
            } in
            rw run (_, refl, report_if env reading cfg ids before identity found o _ g'))

    paths_if_clean :
        {n : ℕ} (clean : Bool) (series : Seen) (now later : ℤ) (r : Inspection F)
        → Fine env reading cfg ids before identity n r
        → (r' : Inspection F) × ((if clean
              then check_paths env reading identity series now later r
              else some r)
            ≡ some r')
          × Fine env reading cfg ids before identity n r'
    paths_if_clean true series now later r g = check_paths_total series now later r g
    paths_if_clean false series now later r g = (r, refl, g)

    writer_if_clean :
        {n : ℕ} (clean : Bool) (series : Seen) (r : Inspection F)
        → Fine env reading cfg ids before identity n r
        → Fine env reading cfg ids before identity n
            (if clean then check_writer env reading identity series r else r)
    writer_if_clean true series r g =
        check_writer-Good env reading cfg ids before identity series r g
    writer_if_clean false series r g = g

    inspect_series_total :
        {n : ℕ} (now_ms : ℤ) (ts : TimeSeries) (r : Inspection F)
        → Fine env reading cfg ids before identity n r
        → (r' : Inspection F) × (inspect_series env reading identity now_ms ts r ≡ some r')
          × Fine env reading cfg ids before identity
              (n + length ts.samples + length ts.histograms)
              r'
    unfolding inspect_series
    inspect_series_total {n = n} now_ms ts r g =
        let c = r.inspector.cfg in
        let series : Seen = record {
          labels = ts.labels;
          details = record {
            name = series_name ts.labels;
            host = host_name ts.labels;
            hash = canonical_hash env.sum64 ts.labels;
          };
        } in
        let reasons = validate_series c.max_labels c.max_label_value_length ts.labels in
        let clean = no_reasons reasons in
        let (ready, same) =
          capture_with-Ready env reading cfg ids before identity r.inspector.capture ts r.inspector
            g.ready in
        let captured =
          with_inspector-Good env reading identity cfg ids before
            (capture_series env reading identity ts r.inspector) r ready same g in
        let r0 : Inspection F = record r {
          inspector = capture_series env reading identity ts r.inspector;
          total_samples = r.total_samples + length ts.samples + length ts.histograms;
        } in
        let g0 : Fine env reading cfg ids before identity
            (n + length ts.samples + length ts.histograms) r0 =
          record {
            ready = captured.ready;
            total = omega (arith, captured.total);
            judged = captured.judged;
            uncounted = captured.uncounted;
            recorded = captured.recorded;
          } in
        let g1 = report_series-Good env reading identity cfg ids before reasons series r0 g0 in
        let (r2, e2, g2) = paths_if_clean clean series ts.now ts.later _ g1 in
        let (r3, e3, g3) =
          inspect_samples_total env reading cfg ids before identity clean series now_ms ts.samples _
            (writer_if_clean clean series r2 g2) in
        (
          inspect_histograms env reading identity series now_ms ts.histograms r3,
          rw e2 (rw e3 refl),
          inspect_histograms-Good env reading cfg ids before identity series now_ms ts.histograms r3
              g3,
        )

    inspect_all_total :
        (n : ℕ) (now_ms : ℤ) (series : List TimeSeries) (r : Inspection F)
        → Fine env reading cfg ids before identity n r
        → (r' : Inspection F) × (inspect_all env reading identity now_ms series r ≡ some r')
          × Fine env reading cfg ids before identity (n + sample_count series) r'
    unfolding inspect_all
    inspect_all_total n now_ms [] r g =
        (r, refl, subst (λ m. Fine env reading cfg ids before identity m r) (omega arith) g)
    inspect_all_total n now_ms (ts ∷ series) r g =
        let (r1, e1, g1) = inspect_series_total now_ms ts r g in
        let (r2, e2, g2) =
          inspect_all_total (n + length ts.samples + length ts.histograms) now_ms series r1 g1 in
        (r2, rw e1 e2, subst (λ m. Fine env reading cfg ids before identity m r2) (omega arith) g2)

-- What `inspectReceived` returns for `series`, from an inspector with the effects `before` on.
pub record Inspected {F : Type 0} (env : Environment) (reading : ℕ → Reading)
    (identity : RequestIdentity) (cfg : Config F) (ids : IdentitySet) (before : Effects)
    (series : List TimeSeries) (r : Inspection F) : Type 0 where
  pub ready : Ready cfg ids r.inspector
  pub total : r.total_samples ≡ sample_count series
  pub judged : r.bad_data ≡ some_observation r.observations
  pub recorded : Recorded env reading identity before r.observations r.inspector.effects
  pub samples :
      (values : List Bytes)
      → counter_value values r.inspector.effects.samples_total
        ≡ counter_value values before.samples_total
          + ite (Values-discrete (label_values identity []) values) (sample_count series) 0
  pub requests : r.inspector.effects.requests_total ≡ before.requests_total
  pub decode_errors : r.inspector.effects.decode_errors_total ≡ before.decode_errors_total

module _ {F : Type 0} (env : Environment) (reading : ℕ → Reading) (identity : RequestIdentity)
    (cfg : Config F) (ids : IdentitySet) (before : Effects) (series : List TimeSeries) where
  counted :
      (r : Inspection F)
      → Good env reading identity cfg ids before (0 + sample_count series) r
      → r.total_samples ≡ sample_count series
  counted r g = omega (arith, g.total)

  counted_samples-Inspected :
      (r : Inspection F)
      → Good env reading identity cfg ids before (0 + sample_count series) r
      → Inspected env reading identity cfg ids before series (counted_samples identity r)
  unfolding counted_samples
  counted_samples-Inspected r g = record {
    ready = record {
      same_cfg = g.ready.same_cfg;
      same_ids = g.ready.same_ids;
      samples = g.ready.samples;
      paths = g.ready.paths;
      balanced = g.ready.balanced;
    };
    total = counted r g;
    judged = g.judged;
    recorded = record {
      series = g.recorded.series;
      samples = g.recorded.samples;
      top = g.recorded.top;
    };
    samples = λ values.
        counter_value-counter_add values (label_values identity []) r.total_samples
          r.inspector.effects.samples_total
        ∙ rw (ap (λ c. c.0) g.uncounted) (rw (counted r g) refl);
    requests = ap (λ c. c.1) g.uncounted;
    decode_errors = ap (λ c. c.2) g.uncounted;
  }

  if-Inspected :
      (b : Bool) (i j : Inspector F) (r : Inspection F)
      → Inspected env reading identity cfg ids before series (record r { inspector = i })
      → Inspected env reading identity cfg ids before series (record r { inspector = j })
      → Inspected env reading identity cfg ids before series
          (record r { inspector = if b then i else j })
  if-Inspected true i j r g h = g
  if-Inspected false i j r g h = h

  update_cache_metrics-Inspected :
      (ended : ℤ) (r : Inspection F)
      → Inspected env reading identity cfg ids before series r
      → Inspected env reading identity cfg ids before series
          (record r { inspector = update_cache_metrics ended r.inspector })
  unfolding update_cache_metrics
  update_cache_metrics-Inspected ended r g = if-Inspected _ r.inspector _ r g (record {
    ready = record {
      same_cfg = g.ready.same_cfg;
      same_ids = g.ready.same_ids;
      samples = g.ready.samples;
      paths = g.ready.paths;
      balanced = g.ready.balanced;
    };
    total = g.total;
    judged = g.judged;
    recorded = g.recorded;
    samples = g.samples;
    requests = g.requests;
    decode_errors = g.decode_errors;
  })

module _ {F : Type 0} (cfg : Config F) (ids : IdentitySet) where
  -- On an inspector that is ready, and for an identity that its identity set resolved, with values
  -- that are valid UTF-8, a request is inspected without a panic, whatever series it holds and
  -- whatever the clock reads. The inspector stays ready. The result counts all samples and
  -- histograms and is bad data exactly when something was observed, which is so at least where
  -- `validateSeries` has a reason against one of the series, or one of its samples or histograms
  -- is stale or future; the observations, and nothing else, are added to the counters of bad
  -- series and samples under their reasons, and are ranked in order; and all samples are added to
  -- their counter.
  pub inspect_received-Inspected :
      (env : Environment) (reading : ℕ → Reading) (trim_space header : Bytes → Bytes)
      (i : Inspector F) (now_ms ended : ℤ) (series : List TimeSeries)
      → Ready cfg ids i
      → valid_labels (resolve trim_space header ids).values ≡ true
      → (r : Inspection F) × (inspect_received env reading
            (resolve trim_space header ids)
            i
            now_ms
            ended
            series
          ≡ some r)
        × Inspected env reading (resolve trim_space header ids) cfg ids i.effects series r
        × (any_fault cfg now_ms series && not r.bad_data ≡ false)
  unfolding inspect_received count_samples counted_samples update_cache_metrics valid_labels
  inspect_received-Inspected env reading trim_space header i now_ms ended series ready valid =
      let identity = resolve trim_space header ids in
      let (r, run, g) =
        inspect_all_total env reading cfg ids i.effects identity
          (λ q absent.
            let (_, other, _) = resolve-has_field trim_space header ids q in
            ground (arith, bytes_eq_iff (identity_get identity q) unknown_identity))
          0 now_ms series _
          (record {
            ready = ready;
            total = refl;
            judged = refl;
            uncounted = refl;
            recorded = nothing-Recorded env reading identity i.effects;
          }) in
      let (_, found) =
        inspect_all-Found cfg now_ms env reading identity series false _ r run
          (ready.same_cfg, refl) in
      let r' = counted_samples identity r in
      (
        record r' { inspector = update_cache_metrics ended r'.inspector },
        rw run (rw (valid_labels-label_values identity [] valid refl) refl),
        update_cache_metrics-Inspected env reading identity cfg ids i.effects series ended _
            (counted_samples-Inspected env reading identity cfg ids i.effects series r g),
        ground (arith, found, g.judged),
      )
