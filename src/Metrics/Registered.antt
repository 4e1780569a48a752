-- ===== src/Metrics/Registered.antt =====
-- The registry accepts the collectors of the program exactly where no output of a projection is
-- reserved.
use remote_write_inspector.Prelude.{
  ◌≡◌, refl, sym, subst, ◌∙◌, inl, inr, Bool, true, false, ◌&&◌, ◌||◌, List, [], ◌∷◌, ◌++◌, none,
  some, arith, Bool-cases, Option-cases,
}
use remote_write_inspector.Prelude.Bytes.{Bytes, codes, bytes_eq, bytes_eq_sound}
use remote_write_inspector.Identity.Types.{IdentityDefinition}
use remote_write_inspector.Identity.{identity_definition}
use remote_write_inspector.Identity.Fields.{Distinct, AllSupported}
use remote_write_inspector.Validate.{label_name_match, name_match, name_rest, is_letter, is_digit}
use remote_write_inspector.Metrics.{Collector, register_all}
use remote_write_inspector.Metrics.Labels.{behind, names_of}
use remote_write_inspector.Metrics.Registry.{
  Registry, ValidCollector, starts_with, reserved_label, some_reserved, label_names_match,
}

abbrev pub AllValid : List Collector → Type 0
AllValid [] = Unit {0}
AllValid (c ∷ cs) = ValidCollector c × AllValid cs

unfoldable pub any_reserved : List Collector → Bool
any_reserved [] = false
any_reserved (c ∷ cs) = some_reserved c.labels || any_reserved cs

module _ (registry : Registry) where
  open registry use {Reg, register, registered_names, register_valid, register_reserved}

  -- Collectors with new and different names are all registered.
  pub register_all_total :
      (cs : List Collector) (r : Reg)
      → AllValid cs
      → Distinct (registered_names r) (names_of cs)
      → (r' : Reg) × (register_all register cs r ≡ some r')
        × (registered_names r' ≡ behind (names_of cs) (registered_names r))
  unfolding register_all
  register_all_total [] r v d = (r, refl, refl)
  register_all_total (c ∷ cs) r (v, vs) (fresh, d) =
      let (r1, kept, names) = register_valid c r v fresh in
      let (r2, run, names') =
        register_all_total cs r1 vs (subst (λ seen. Distinct seen (names_of cs)) (sym names) d) in
      (r2, rw kept run, names' ∙ rw names refl)

  -- A reserved label name is an error.
  pub register_all-reserved :
      (cs : List Collector) (r : Reg) → any_reserved cs ≡ true → register_all register cs r ≡ none
  unfolding register_all any_reserved
  register_all-reserved [] r h = absurd (ground arith)
  register_all-reserved (c ∷ cs) r h = elim (Bool-cases (some_reserved c.labels)) [
    | inl t ↦ rw (register_reserved c r t) refl
    | inr f ↦ elim (Option-cases (register c r)) [
      | inl e ↦ rw e refl
      | inr (r', e) ↦ rw e (register_all-reserved cs r' (ground arith))
    ]
  ]

pub label_names_match-append :
    (xs ys : List Bytes)
    → label_names_match (xs ++ ys) ≡ label_names_match xs && label_names_match ys
unfolding label_names_match
label_names_match-append [] ys = refl
label_names_match-append (x ∷ xs) ys = ground (arith, label_names_match-append xs ys)

pub some_reserved-append :
    (xs ys : List Bytes) → some_reserved (xs ++ ys) ≡ some_reserved xs || some_reserved ys
unfolding some_reserved
some_reserved-append [] ys = refl
some_reserved-append (x ∷ xs) ys = ground (arith, some_reserved-append xs ys)

-- An identity shorthand is a label name and is not reserved.
identity_definition-label :
    (name : Bytes) (def : IdentityDefinition)
    → identity_definition name ≡ some def
    → (label_name_match name ≡ true) × (reserved_label name ≡ false)
unfolding identity_definition label_name_match name_match name_rest is_letter is_digit starts_with
identity_definition-label name def h =
    let P : Bytes → Type 0 = λ w. (label_name_match w ≡ true) × (reserved_label w ≡ false) in
    elim (Bool-cases (bytes_eq name (codes "tenant"))) [
      | inl t ↦ subst P (sym (bytes_eq_sound name (codes "tenant") t)) (refl, refl)
      | inr t ↦ elim (Bool-cases (bytes_eq name (codes "pipeline_sink"))) [
        | inl u ↦ subst P (sym (bytes_eq_sound name (codes "pipeline_sink") u)) (refl, refl)
        | inr u ↦ elim (Bool-cases (bytes_eq name (codes "input_path"))) [
          | inl v ↦ subst P (sym (bytes_eq_sound name (codes "input_path") v)) (refl, refl)
          | inr v ↦ elim (Bool-cases (bytes_eq name (codes "writer_id"))) [
            | inl w ↦ subst P (sym (bytes_eq_sound name (codes "writer_id") w)) (refl, refl)
            | inr w ↦ absurd (ground arith)
          ]
        ]
      ]
    ]

pub supported_labels :
    (names : List Bytes)
    → AllSupported names
    → (label_names_match names ≡ true) × (some_reserved names ≡ false)
unfolding label_names_match some_reserved
supported_labels [] s = (refl, refl)
supported_labels (name ∷ names) ((def, e), s) =
    let (a, b) = identity_definition-label name def e in
    let (c, d) = supported_labels names s in (ground arith, ground arith)
