-- ===== src/Loadgen/Sent.antt =====
-- What the inspector resolves from the headers that the load generator sends.
use Prim.Native.String.{String}
use remote_write_inspector.Prelude.{
  ℕ, suc, ◌≤◌, ◌≡◌, refl, sym, ap, ◌∙◌, inl, inr, true, false, List, [], ◌∷◌, some, if◌then◌else◌,
  length, get_elem?, arith, Bool-cases,
}
use remote_write_inspector.Prelude.Bytes.{Bytes, codes, bytes_eq, bytes_eq_sound}
use remote_write_inspector.Prelude.Int.{pos}
use remote_write_inspector.Identity.Types.{IdentityDefinition}
use remote_write_inspector.Identity.Fields.{AllDefined}
use remote_write_inspector.Identity.{
  identity_definition, contains_string, names_from_defs, truncate_identity_value, header_value,
}
use remote_write_inspector.Loadgen.Requests.{GeneratedRequest}
use remote_write_inspector.Loadgen.Headers.{
  lower, header_get, set_remote_write_headers, sent_headers,
}

-- A field of the set stands at a place.
pub definition_at :
    (defs : List IdentityDefinition) (name : Bytes)
    → AllDefined defs
    → contains_string (names_from_defs defs) name ≡ true
    → (i : ℕ) × (d : IdentityDefinition) × (get_elem? defs i ≡ some d)
      × (d.name ≡ name)
      × (identity_definition name ≡ some d)
unfolding contains_string names_from_defs
definition_at [] name a h = absurd (ground arith)
definition_at (d ∷ defs) name (e, a) h = elim (Bool-cases (bytes_eq d.name name)) [
  | inl t ↦
      let same = bytes_eq_sound d.name name t in
      (0, d, refl, same, ap identity_definition (sym same) ∙ e)
  | inr f ↦ let (i, c, at, n, q) = definition_at defs name a (ground arith) in (suc i, c, at, n, q)
]

module _ (trim_space header : Bytes → Bytes) (limit : ℕ) (value : Bytes) (h : Bytes) where
  -- A first header that is not blank, and not longer than the limit, is the value.
  pub header_value_first :
      (headers : List Bytes)
      → trim_space (header h) ≡ value
      → bytes_eq value [] ≡ false
      → length value ≤ limit
      → header_value trim_space header (pos limit) (h ∷ headers) ≡ value
  unfolding header_value truncate_identity_value
  header_value_first headers e some_text short = ground arith

-- What the load generator sends for an identity.
unfoldable pub sent_value : GeneratedRequest → Bytes → Bytes
sent_value g name =
    if bytes_eq name (codes "tenant")
    then g.tenant
    else if bytes_eq name (codes "pipeline_sink")
    then g.sink
    else if bytes_eq name (codes "input_path")
    then g.path
    else g.writer

abbrev other_headers : String → String → List Bytes
other_headers a b = codes a ∷ codes b ∷ []

pub sent_first :
    (canonical : Bytes → Bytes) (same_letters : (s : Bytes) → lower (canonical s) ≡ lower s)
    (g : GeneratedRequest) (h : List (Bytes × Bytes)) (name : Bytes) (d : IdentityDefinition)
    → identity_definition name ≡ some d
    → (first : Bytes) × (headers : List Bytes) × (d.headers ≡ first ∷ headers)
      × (header_get canonical (set_remote_write_headers canonical g h) first ≡ sent_value g name)
unfolding identity_definition sent_value
sent_first canonical same_letters g h name d e =
    let (tenant, sink, path, writer) = sent_headers canonical same_letters g h in
    elim (Bool-cases (bytes_eq name (codes "tenant"))) [
      | inl t ↦ (
        codes "X-Scope-OrgID",
        other_headers "X-Remote-Write-Inspector-Tenant" "X-RWI-Tenant",
        ground arith,
        rw t tenant,
      )
      | inr t ↦ elim (Bool-cases (bytes_eq name (codes "pipeline_sink"))) [
        | inl u ↦ (
          codes "X-Obs-Pipeline-Sink",
          other_headers "X-Remote-Write-Inspector-Pipeline-Sink" "X-RWI-Pipeline-Sink",
          ground arith,
          rw (t, u) sink,
        )
        | inr u ↦ elim (Bool-cases (bytes_eq name (codes "input_path"))) [
          | inl v ↦ (
            codes "X-Obs-Input-Path",
            other_headers "X-Remote-Write-Inspector-Input-Path" "X-RWI-Input-Path",
            ground arith,
            rw (t, u, v) path,
          )
          | inr v ↦ (
            codes "X-Obs-Writer-ID",
            other_headers "X-Remote-Write-Inspector-Writer-ID" "X-RWI-Writer-ID",
            ground arith,
            rw (t, u, v) writer,
          )
        ]
      ]
    ]
