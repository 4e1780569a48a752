-- ===== src/Loadgen/Identified.antt =====
-- The inspector resolves the identity that the load generator gives a request.
use remote_write_inspector.Prelude.{
  ℕ, zero, suc, ◌+◌, ◌/◌, ◌%◌, ◌^◌, ◌≤◌, ◌<◌, ◌≡◌, refl, sym, ap, subst, ◌∙◌, inl, inr, Bool, true,
  false, ◌&&◌, List, [], ◌∷◌, ◌++◌, Option, some, leb, if◌then◌else◌, length, arith, Option-cases,
}
use remote_write_inspector.Prelude.Bytes.{Bytes, codes, bytes_eq}
use remote_write_inspector.Prelude.Int.{ℤ, pos, pos_part}
use remote_write_inspector.Identity.Types.{IdentitySet, ok}
use remote_write_inspector.Identity.Fields.{Distinct, new_identity_set-ok}
use remote_write_inspector.Identity.Resolved.{resolve-identity_get}
use remote_write_inspector.Identity.{new_identity_set, has, header_value, resolve, identity_get}
use remote_write_inspector.Loadgen.{LoadConfig}
use remote_write_inspector.Loadgen.Verdicts.{itoa-short}
use remote_write_inspector.Loadgen.Requests.{
  itoa, itoa_digits, Draws, GeneratedSeries, GeneratedRequest, path_index, request_series,
  generate_request,
}
use remote_write_inspector.Loadgen.Headers.{lower, header_get, set_remote_write_headers}
use remote_write_inspector.Identity.Fields.{new_identity_set-AllDefined}
use remote_write_inspector.Loadgen.Sent.{definition_at, header_value_first, sent_value, sent_first}

-- The bytes of a header value without spaces.
unfoldable pub printable : Bytes → Bool
printable [] = true
printable (c ∷ s) = leb 33 c && (leb c 126 && printable s)

itoa_digits-printable :
    (fuel n : ℕ) (out : Bytes) → printable out ≡ true → printable (itoa_digits fuel n out) ≡ true
unfolding itoa_digits printable
itoa_digits-printable zero n out h = h
itoa_digits-printable (suc fuel) n out h =
    ground (arith, itoa_digits-printable fuel (n / 10) ((b'0' + n % 10) ∷ out))

itoa-printable : (n : ℕ) → printable (itoa n) ≡ true
unfolding itoa printable
itoa-printable n = itoa_digits-printable (n + 1) n [] refl

-- What the load generator is to be known as, by the number of the request.
unfoldable pub expected_value : {F : Type 0} → LoadConfig F → ℕ → Bytes → Bytes
expected_value cfg seq name =
    if bytes_eq name (codes "tenant")
    then codes "tenant-" ++ itoa (seq % pos_part cfg.tenant_count)
    else if bytes_eq name (codes "pipeline_sink")
    then codes "sink-" ++ itoa (seq % pos_part cfg.sink_count)
    else if bytes_eq name (codes "input_path")
    then codes "path-" ++ itoa (path_index cfg seq)
    else codes "writer-" ++ itoa (seq % pos_part cfg.writer_count)

-- The counts of a configuration, positive and below 2^63.
pub record SmallCounts {F : Type 0} (cfg : LoadConfig F) : Type 0 where
  pub tenants : (0 < pos_part cfg.tenant_count) × (pos_part cfg.tenant_count < 2 ^ 63)
  pub sinks : (0 < pos_part cfg.sink_count) × (pos_part cfg.sink_count < 2 ^ 63)
  pub paths : (0 < pos_part cfg.path_count) × (pos_part cfg.path_count < 2 ^ 63)
  pub writers : (0 < pos_part cfg.writer_count) × (pos_part cfg.writer_count < 2 ^ 63)

-- A value that is not blank, has no spaces, and is short.
abbrev Plain : Bytes → Type 0
Plain s = (bytes_eq s [] ≡ false) × (printable s ≡ true) × (length s ≤ 26)

itoa-Plain :
    (n : ℕ)
    → n < 2 ^ 63
    → Plain (codes "tenant-" ++ itoa n)
      × Plain (codes "sink-" ++ itoa n)
      × Plain (codes "path-" ++ itoa n)
      × Plain (codes "writer-" ++ itoa n)
unfolding printable bytes_eq
itoa-Plain n h =
    let p = itoa-printable n in
    let l = itoa-short n h in
    ((refl, p, omega arith), (refl, p, omega arith), (refl, p, omega arith), (refl, p, omega arith))

module _ {F : Type 0} (cfg : LoadConfig F) (value : ℕ → ℤ → ℕ → ℕ) (now : ℕ) (draws : Draws)
    (marshal : List GeneratedSeries → Option Bytes) (encode : Bytes → Bytes) (seq : ℕ)
    (g : GeneratedRequest)
    (made : generate_request cfg value now draws marshal encode seq ≡ some g) where
  sent_value-expected : (name : Bytes) → sent_value g name ≡ expected_value cfg seq name
  unfolding generate_request sent_value expected_value
  sent_value-expected name =
      elim (Option-cases (marshal (request_series cfg value now draws seq))) [
        | inl e ↦ absurd (ground arith)
        | inr (body, e) ↦ ground arith
      ]

  expected-Plain : SmallCounts cfg → (name : Bytes) → Plain (expected_value cfg seq name)
  unfolding expected_value path_index
  expected-Plain small name =
      let tenant = (itoa-Plain (seq % pos_part cfg.tenant_count) (omega arith)).0 in
      let sink = (itoa-Plain (seq % pos_part cfg.sink_count) (omega arith)).1 in
      let path = (itoa-Plain (path_index cfg seq) (omega arith)).2 in
      let writer = (itoa-Plain (seq % pos_part cfg.writer_count) (omega arith)).3 in ground arith

module _ (canonical trim_space : Bytes → Bytes)
    (same_letters : (s : Bytes) → lower (canonical s) ≡ lower s)
    (trims : (s : Bytes) → printable s ≡ true → trim_space s ≡ s) where
  -- Let making a header name canonical change only the case of letters, and trimming change no text
  -- without spaces; let the counts of the load generator be positive and below 2^63, and the length limit
  -- of the inspector at least 26. Then for each field of an identity set that `NewIdentitySet` makes with
  -- this limit, the inspector resolves from the headers of a generated request what the load generator
  -- means: the tenant, sink or writer whose number is that of the request modulo their count, and the
  -- path of the request's cycle.
  pub resolve-generate_request :
      {F : Type 0} (cfg : LoadConfig F) (value : ℕ → ℤ → ℕ → ℕ) (now : ℕ) (draws : Draws)
      (marshal : List GeneratedSeries → Option Bytes) (encode : Bytes → Bytes) (seq : ℕ)
      (g : GeneratedRequest) (h : List (Bytes × Bytes)) (names : List Bytes) (limit : ℕ)
      (ids : IdentitySet) (name : Bytes)
      → generate_request cfg value now draws marshal encode seq ≡ some g
      → SmallCounts cfg
      → new_identity_set names (pos limit) ≡ ok ids
      → 26 ≤ limit
      → has ids name ≡ true
      → identity_get
          (resolve trim_space (header_get canonical (set_remote_write_headers canonical g h)) ids)
          name
        ≡ expected_value cfg seq name
  unfolding has
  resolve-generate_request cfg value now draws marshal encode seq g h names limit ids name made
        small accepted enough known =
      let header = header_get canonical (set_remote_write_headers canonical g h) in
      let (d, _, held, room) = new_identity_set-ok names (pos limit) ids accepted in
      let (i, def, at, named, defined) =
        definition_at ids.defs name (new_identity_set-AllDefined names (pos limit) ids accepted)
          known in
      let (first, headers, listed, sent) = sent_first canonical same_letters g h name def defined in
      let same = sent_value-expected cfg value now draws marshal encode seq g made name in
      let (some_text, plain, short) =
        expected-Plain cfg value now draws marshal encode seq g made small name in
      let distinct = subst (Distinct []) (sym held) d in
      let trimmed : trim_space (header first) ≡ expected_value cfg seq name =
        ap trim_space (sent ∙ same) ∙ trims (expected_value cfg seq name) plain in
      ap (identity_get (resolve trim_space header ids)) (sym named)
      ∙ resolve-identity_get trim_space header ids i def distinct at
      ∙ ap (λ n. header_value trim_space header n def.headers) room
      ∙ ap (header_value trim_space header (pos limit)) listed
      ∙ header_value_first trim_space header limit (expected_value cfg seq name) first headers
          trimmed some_text (omega (arith, short, enough))
