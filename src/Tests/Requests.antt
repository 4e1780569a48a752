-- ===== src/Tests/Requests.antt =====
-- Identity sets and request headers at concrete inputs.
use remote_write_inspector.Prelude.{◌≡◌, refl, ◌↔◌, List, [], ◌∷◌, if◌then◌else◌}
use remote_write_inspector.Prelude.Bytes.{Bytes, codes, bytes_eq}
use remote_write_inspector.Prelude.Int.{ℤ, pos}
use remote_write_inspector.Identity.Types.{IdentityDefinition, IdentitySet, ok}
use remote_write_inspector.Identity.Fields.{
  Distinct, AllSupported, AllDefined, new_identity_set_iff,
}
use remote_write_inspector.Identity.{new_identity_set, names_from_defs, contains_string}

abbrev tenant_and_path : List Bytes
tenant_and_path = codes "tenant" ∷ codes "input_path" ∷ []

abbrev tenant_and_path_set : IdentitySet
tenant_and_path_set = record {
  defs =
      record {
        name = codes "tenant";
        headers =
            codes "X-Scope-OrgID"
            ∷ codes "X-Remote-Write-Inspector-Tenant"
            ∷ codes "X-RWI-Tenant"
            ∷ [];
      }
      ∷ record {
        name = codes "input_path";
        headers =
            codes "X-Obs-Input-Path"
            ∷ codes "X-Remote-Write-Inspector-Input-Path"
            ∷ codes "X-RWI-Input-Path"
            ∷ [];
      }
      ∷ [];
  max_identity_length = pos 4;
}

new_identity_set_iff_example :
    (new_identity_set tenant_and_path (pos 4) ≡ ok tenant_and_path_set) ↔ (
      Distinct [] tenant_and_path
      × AllSupported tenant_and_path
      × AllDefined tenant_and_path_set.defs
      × (names_from_defs tenant_and_path_set.defs ≡ tenant_and_path)
      × ◌≡◌ {A = ℤ} (pos 4) (pos 4))
new_identity_set_iff_example = new_identity_set_iff tenant_and_path (pos 4) tenant_and_path_set

abbrev path_field : IdentityDefinition
path_field = record { name = codes "path"; headers = codes "A" ∷ codes "B" ∷ [] }

abbrev one_field : IdentitySet
one_field = record { defs = path_field ∷ []; max_identity_length = pos 4 }

-- No spaces to trim, and only the header `B` is set.
abbrev same_text : Bytes → Bytes
same_text s = s

abbrev only_b : Bytes → Bytes
only_b h = if bytes_eq h (codes "B") then codes "direct" else []

names_differ : Distinct [] (names_from_defs one_field.defs)
unfolding names_from_defs contains_string
names_differ = (refl, tt)
