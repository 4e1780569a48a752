-- ===== src/Identity.antt =====
-- internal/inspector/identity.go: the identity fields of a request, read from its headers. A header
-- set is the function `Get` of `http.Header`; `strings.TrimSpace` is the parameter `trim_space`.
use remote_write_inspector.Prelude.{
  ℕ, Bool, true, false, ◌||◌, not, List, [], ◌∷◌, ◌++◌, map, Option, none, some, leb, if◌then◌else◌,
  length, take, map_get, map_put,
}
use remote_write_inspector.Prelude.Bytes.{Bytes, codes, bytes_eq, Bytes-discrete}
use remote_write_inspector.Prelude.Int.{ℤ, pos, pos_part, ltb_ℤ}
use remote_write_inspector.Hash.{unknown_identity}
use Types.{
  IdentityDefinition, IdentitySet, RequestIdentity, IdentityError, unsupported, duplicate, Result,
  ok, err,
}
pub mod Types
pub mod Fields
pub mod Resolved

-- `identityDefinition`.
unfoldable pub identity_definition : Bytes → Option IdentityDefinition
identity_definition name =
    if bytes_eq name (codes "tenant")
    then some (record {
      name = name;
      headers =
          codes "X-Scope-OrgID"
          ∷ codes "X-Remote-Write-Inspector-Tenant"
          ∷ codes "X-RWI-Tenant"
          ∷ [];
    })
    else if bytes_eq name (codes "pipeline_sink")
    then some (record {
      name = name;
      headers =
          codes "X-Obs-Pipeline-Sink"
          ∷ codes "X-Remote-Write-Inspector-Pipeline-Sink"
          ∷ codes "X-RWI-Pipeline-Sink"
          ∷ [];
    })
    else if bytes_eq name (codes "input_path")
    then some (record {
      name = name;
      headers =
          codes "X-Obs-Input-Path"
          ∷ codes "X-Remote-Write-Inspector-Input-Path"
          ∷ codes "X-RWI-Input-Path"
          ∷ [];
    })
    else if bytes_eq name (codes "writer_id")
    then some (record {
      name = name;
      headers =
          codes "X-Obs-Writer-ID"
          ∷ codes "X-Remote-Write-Inspector-Writer-ID"
          ∷ codes "X-RWI-Writer-ID"
          ∷ [];
    })
    else none

unfoldable pub contains_string : List Bytes → Bytes → Bool
contains_string [] want = false
contains_string (value ∷ values) want = bytes_eq value want || contains_string values want

-- The loop of `NewIdentitySet`; `defs` is in the order of the names.
unfoldable pub collect_definitions :
    List Bytes → List Bytes → List IdentityDefinition → Result (List IdentityDefinition)
collect_definitions [] seen defs = ok defs
collect_definitions (name ∷ names) seen defs = elim (identity_definition name) [
  | none ↦ err (unsupported name)
  | some def ↦
      if contains_string seen def.name
      then err (duplicate def.name)
      else collect_definitions names (def.name ∷ seen) (defs ++ (def ∷ []))
]

unfoldable pub new_identity_set : List Bytes → ℤ → Result IdentitySet
new_identity_set names max_identity_length = elim (collect_definitions names [] []) [
  | err e ↦ err e
  | ok defs ↦ ok (record { defs = defs; max_identity_length = max_identity_length })
]

-- `namesFromDefs`, which `LabelNames` copies.
unfoldable pub names_from_defs : List IdentityDefinition → List Bytes
names_from_defs [] = []
names_from_defs (def ∷ defs) = def.name ∷ names_from_defs defs

-- `Has`.
unfoldable pub has : IdentitySet → Bytes → Bool
has s name = contains_string (names_from_defs s.defs) name

unfoldable pub truncate_identity_value : Bytes → ℤ → Bytes
truncate_identity_value value max_len =
    if bytes_eq value []
    then unknown_identity
    else if not (ltb_ℤ (pos 0) max_len) || not (ltb_ℤ max_len (pos (length value)))
    then value
    else take (pos_part max_len) value

module _ (trim_space : Bytes → Bytes) (header : Bytes → Bytes) where
  -- The inner loop of `Resolve`: the first header that is not blank.
  unfoldable pub header_value : ℤ → List Bytes → Bytes
  header_value max_len [] = unknown_identity
  header_value max_len (h ∷ headers) =
      let raw = trim_space (header h) in
      if not (bytes_eq raw [])
      then truncate_identity_value raw max_len
      else header_value max_len headers

  unfoldable pub resolve_values : ℤ → List IdentityDefinition → List Bytes
  resolve_values max_len [] = []
  resolve_values max_len (def ∷ defs) =
      header_value max_len def.headers ∷ resolve_values max_len defs

  unfoldable pub resolve_by_name :
      ℤ → List IdentityDefinition → List (Bytes × Bytes) → List (Bytes × Bytes)
  resolve_by_name max_len [] m = m
  resolve_by_name max_len (def ∷ defs) m =
      resolve_by_name max_len defs
        (map_put Bytes-discrete def.name (header_value max_len def.headers) m)

  -- `Resolve`: both loops write the value of each definition in turn.
  unfoldable pub resolve : IdentitySet → RequestIdentity
  resolve s = record {
    names = names_from_defs s.defs;
    values = resolve_values s.max_identity_length s.defs;
    by_name = resolve_by_name s.max_identity_length s.defs [];
  }

-- `LabelValues`.
unfoldable pub label_values : RequestIdentity → List Bytes → List Bytes
label_values i extra = i.values ++ extra

-- `Get`.
unfoldable pub identity_get : RequestIdentity → Bytes → Bytes
identity_get i name = elim (map_get Bytes-discrete name i.by_name) [
  | some v ↦ v
  | none ↦ unknown_identity
]

unfoldable pub has_known : RequestIdentity → Bytes → Bool
has_known i name = not (bytes_eq (identity_get i name) unknown_identity)

unfoldable pub has_field : RequestIdentity → Bytes → Bool
has_field i name = elim (map_get Bytes-discrete name i.by_name) [ some v ↦ true | none ↦ false ]
