-- ===== src/Identity/Fields.antt =====
-- Which identity sets `NewIdentitySet` accepts.
use remote_write_inspector.Prelude.{
  ◌≡◌, refl, ◌∙◌, ◌↔◌, ◌⊎◌, inl, inr, false, List, [], ◌∷◌, ◌++◌, some, arith, Option-cases, sym,
  ap, subst, Bool-cases,
}
use mathlib.Core.List.{append_assoc, append-nil}
use remote_write_inspector.Prelude.Bytes.{Bytes}
use remote_write_inspector.Prelude.Int.{ℤ}
use remote_write_inspector.Identity.Types.{
  IdentityDefinition, IdentitySet, IdentityError, Result, ok, err,
}
use remote_write_inspector.Identity.{
  identity_definition, contains_string, collect_definitions, new_identity_set, names_from_defs,
}

-- A definition carries the name that it was looked up by.
pub identity_definition-name :
    (name : Bytes) {def : IdentityDefinition}
    → identity_definition name ≡ some def
    → def.name ≡ name
unfolding identity_definition
identity_definition-name name h = ground arith

-- No name stands twice, nor among the ones seen.
abbrev pub Distinct : List Bytes → List Bytes → Type 0
Distinct seen [] = Unit {0}
Distinct seen (name ∷ names) = (contains_string seen name ≡ false) × Distinct (name ∷ seen) names

abbrev pub AllSupported : List Bytes → Type 0
AllSupported [] = Unit {0}
AllSupported (name ∷ names) =
    ((def : IdentityDefinition) × (identity_definition name ≡ some def)) × AllSupported names

names_from_defs-snoc :
    (defs : List IdentityDefinition) (def : IdentityDefinition)
    → names_from_defs (defs ++ (def ∷ [])) ≡ names_from_defs defs ++ (def.name ∷ [])
unfolding names_from_defs
names_from_defs-snoc [] def = refl
names_from_defs-snoc (d ∷ defs) def = rw (names_from_defs-snoc defs def)

collect_definitions-ok :
    (names seen : List Bytes) (defs out : List IdentityDefinition)
    → collect_definitions names seen defs ≡ ok out
    → Distinct seen names
      × AllSupported names
      × (names_from_defs out ≡ names_from_defs defs ++ names)
unfolding collect_definitions
collect_definitions-ok [] seen defs out h =
    (tt, tt, ground (arith, append-nil (names_from_defs defs)))
collect_definitions-ok (name ∷ names) seen defs out h =
    elim (Option-cases (identity_definition name)) [
      | inl e ↦ absurd (ground arith)
      | inr (def, e) ↦
          let n = identity_definition-name name e in
          let fresh : contains_string seen def.name ≡ false = ground arith in
          let (d, s, q) =
            collect_definitions-ok names (def.name ∷ seen) (defs ++ (def ∷ [])) out
              (ground arith) in
          (
            (ground arith, rw (← n) d),
            ((def, e), s),
            ground (
              arith,
              q,
              names_from_defs-snoc defs def,
              append_assoc (names_from_defs defs) (def.name ∷ []) names,
            ),
          )
    ]

collect_definitions_total :
    (names seen : List Bytes) (defs : List IdentityDefinition)
    → Distinct seen names
    → AllSupported names
    → (out : List IdentityDefinition) × (collect_definitions names seen defs ≡ ok out)
unfolding collect_definitions
collect_definitions_total [] seen defs d s = (defs, refl)
collect_definitions_total (name ∷ names) seen defs d s =
    let ((def, e), rest) = s in
    let n = identity_definition-name name e in
    let (out, h) =
      collect_definitions_total names (def.name ∷ seen) (defs ++ (def ∷ [])) (rw n d.1) rest in
    (out, ground (arith, h))

pub Result-cases :
    {A : Type 0} (r : Result A) → ((a : A) × (r ≡ ok a)) ⊎ ((e : IdentityError) × (r ≡ err e))
Result-cases (ok a) = inl (a, refl)
Result-cases (err e) = inr (e, refl)

pub new_identity_set-ok :
    (names : List Bytes) (n : ℤ) (s : IdentitySet)
    → new_identity_set names n ≡ ok s
    → Distinct [] names
      × AllSupported names
      × (names_from_defs s.defs ≡ names)
      × (s.max_identity_length ≡ n)
unfolding new_identity_set
new_identity_set-ok names n s h = elim (Result-cases (collect_definitions names [] [])) [
  | inl (defs, e) ↦
      let (d, a, q) = collect_definitions-ok names [] [] defs e in
      let q' : names_from_defs defs ≡ names = q ∙ unfold names_from_defs in refl in
      (d, a, ground arith, ground arith)
  | inr (f, e) ↦ absurd (ground arith)
]

new_identity_set_run :
    (names : List Bytes) (n : ℤ) (defs : List IdentityDefinition)
    → collect_definitions names [] [] ≡ ok defs
    → new_identity_set names n ≡ ok (record { defs = defs; max_identity_length = n })
unfolding new_identity_set
new_identity_set_run names n defs e = rw (e, new_identity_set)

identity_set_eq :
    (s t : IdentitySet) → s.defs ≡ t.defs → s.max_identity_length ≡ t.max_identity_length → s ≡ t
identity_set_eq s t e l = ground arith

-- Each definition of a set is the one that its name stands for.
abbrev pub AllDefined : List IdentityDefinition → Type 0
AllDefined [] = Unit {0}
AllDefined (d ∷ defs) = (identity_definition d.name ≡ some d) × AllDefined defs

AllDefined-snoc :
    (defs : List IdentityDefinition) (d : IdentityDefinition)
    → AllDefined defs
    → identity_definition d.name ≡ some d
    → AllDefined (defs ++ (d ∷ []))
AllDefined-snoc [] d a e = (e, tt)
AllDefined-snoc (c ∷ defs) d (b, a) e = (b, AllDefined-snoc defs d a e)

collect_definitions-AllDefined :
    (names seen : List Bytes) (defs out : List IdentityDefinition)
    → AllDefined defs
    → collect_definitions names seen defs ≡ ok out
    → AllDefined out
unfolding collect_definitions
collect_definitions-AllDefined [] seen defs out a h =
    let same : defs ≡ out = ground arith in subst AllDefined same a
collect_definitions-AllDefined (name ∷ names) seen defs out a h =
    elim (Option-cases (identity_definition name)) [
      | inl e ↦ absurd (ground arith)
      | inr (d, e) ↦
          let n = identity_definition-name name e in
          elim (Bool-cases (contains_string seen d.name)) [
            | inl t ↦ absurd (ground arith)
            | inr f ↦
                collect_definitions-AllDefined names (d.name ∷ seen) (defs ++ (d ∷ [])) out
                  (AllDefined-snoc defs d a (ap identity_definition n ∙ e)) (ground arith)
          ]
    ]

pub new_identity_set-AllDefined :
    (names : List Bytes) (n : ℤ) (ids : IdentitySet)
    → new_identity_set names n ≡ ok ids
    → AllDefined ids.defs
unfolding new_identity_set
new_identity_set-AllDefined names n ids h = elim (Result-cases (collect_definitions names [] [])) [
  | inr (e, bad) ↦ absurd (ground arith)
  | inl (defs, good) ↦
      let same : defs ≡ ids.defs = ground arith in
      subst AllDefined same (collect_definitions-AllDefined names [] [] defs tt good)
]

-- Two lists of such definitions with the same names are equal.
AllDefined-names :
    (defs defs' : List IdentityDefinition)
    → AllDefined defs
    → AllDefined defs'
    → names_from_defs defs ≡ names_from_defs defs'
    → defs ≡ defs'
unfolding names_from_defs
AllDefined-names [] [] a a' h = refl
AllDefined-names [] (d ∷ defs) a a' h = absurd (ground arith)
AllDefined-names (d ∷ defs) [] a a' h = absurd (ground arith)
AllDefined-names (d ∷ defs) (d' ∷ defs') (e, a) (e', a') h =
    let first : d.name ≡ d'.name = ground arith in
    let rest : names_from_defs defs ≡ names_from_defs defs' = ground arith in
    let same : some d ≡ some d' = sym e ∙ ap identity_definition first ∙ e' in
    let here : d ≡ d' = ground arith in
    let there = AllDefined-names defs defs' a a' rest in
    ap (λ c. c ∷ defs) here ∙ ap (λ ds. d' ∷ ds) there

-- `NewIdentitySet` returns a given set for a list of names, with no error, exactly when no name
-- stands twice, each is one of the supported shorthands, the definitions of the set are those that
-- the shorthands stand for, in the order of the names, and its limit is the given one.
pub new_identity_set_iff :
    (names : List Bytes) (n : ℤ) (s : IdentitySet)
    → (new_identity_set names n ≡ ok s) ↔ (
        Distinct [] names
        × AllSupported names
        × AllDefined s.defs
        × (names_from_defs s.defs ≡ names)
        × (s.max_identity_length ≡ n))
new_identity_set_iff names n s = (
  λ h.
      let (d, a, q, l) = new_identity_set-ok names n s h in
      (d, a, new_identity_set-AllDefined names n s h, q, l),
  λ (d, a, defined, q, l).
      let (defs, e) = collect_definitions_total names [] [] d a in
      let made = new_identity_set_run names n defs e in
      let t : IdentitySet = record { defs = defs; max_identity_length = n } in
      let (_, _, p, _) = new_identity_set-ok names n t made in
      let same : defs ≡ s.defs =
        AllDefined-names defs s.defs (new_identity_set-AllDefined names n t made) defined
          (p ∙ sym q) in
      made ∙ ap ok (identity_set_eq t s same (sym l)),
)
