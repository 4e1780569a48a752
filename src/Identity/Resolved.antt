-- ===== src/Identity/Resolved.antt =====
-- What `Resolve` makes of the headers of a request.
use remote_write_inspector.Prelude.{
  ℕ, zero, suc, ◌≤◌, ◌<◌, ◌≢◌, ◌≡◌, refl, ◌⊎◌, inl, inr, true, false, ◌||◌, ◌&&◌, not, List, [],
  ◌∷◌, none, some, arith, Bool-cases, length, take, get_elem?, map_get, map_put, map_get-map_put,
  length-take,
}
use remote_write_inspector.Prelude.Bytes.{
  Bytes, bytes_eq, bytes_eq_iff, bytes_eq_refl, Bytes-discrete,
}
use remote_write_inspector.Prelude.Int.{ℤ, pos, pos_part, ltb_ℤ}
use remote_write_inspector.Hash.{unknown_identity}
use remote_write_inspector.Identity.Types.{IdentityDefinition, IdentitySet}
use remote_write_inspector.Identity.Fields.{Distinct}
use remote_write_inspector.Identity.{
  contains_string, names_from_defs, has, truncate_identity_value, header_value, resolve_by_name,
  resolve, identity_get, has_field, has_known,
}

Distinct-absent :
    (seen names : List Bytes) (q : Bytes)
    → Distinct seen names
    → contains_string seen q ≡ true
    → contains_string names q ≡ false
unfolding contains_string
Distinct-absent seen [] q d h = refl
Distinct-absent seen (name ∷ names) q d h =
    ground (arith, Distinct-absent (name ∷ seen) names q d.1, bytes_eq_iff name q)

take-ne-nil : (n : ℕ) (s : Bytes) → 0 < n → s ≢ [] → take n s ≢ []
take-ne-nil zero s h e = absurd (omega arith)
take-ne-nil (suc n) [] h e = e
take-ne-nil (suc n) (c ∷ s) h e = λ q. ground arith

cut_value :
    (n : ℤ) (raw : Bytes)
    → bytes_eq raw [] ≡ false
    → ltb_ℤ (pos 0) n ≡ true
    → (truncate_identity_value raw n ≢ [])
      × ((length (truncate_identity_value raw n) ≤ pos_part n)
          ⊎ (truncate_identity_value raw n ≡ unknown_identity))
unfolding truncate_identity_value
cut_value n raw some_text positive =
    let filled : raw ≢ [] = λ e. ground (arith, bytes_eq_iff raw []) in
    let count : 0 < pos_part n = ground arith in
    elim (Bool-cases (ltb_ℤ n (pos (length raw)))) [
      | inl t ↦
          rw (some_text, positive, t)
            (
              take-ne-nil (pos_part n) raw count filled,
              inl (omega (arith, length-take (pos_part n) raw)),
            )
      | inr t ↦ rw (some_text, positive, t) (filled, inl (ground arith))
    ]

nothing_read : (q : Bytes) → map_get {V = Bytes} Bytes-discrete q [] ≡ none
unfolding map_get
nothing_read q = refl

module _ (trim_space : Bytes → Bytes) (header : Bytes → Bytes) (n : ℤ) where
  by_name_absent :
      (defs : List IdentityDefinition) (m : List (Bytes × Bytes)) (q : Bytes)
      → contains_string (names_from_defs defs) q ≡ false
      → map_get Bytes-discrete q (resolve_by_name trim_space header n defs m)
        ≡ map_get Bytes-discrete q m
  unfolding resolve_by_name contains_string names_from_defs
  by_name_absent [] m q h = refl
  by_name_absent (d ∷ defs) m q h =
      let v = header_value trim_space header n d.headers in
      let m' = map_put Bytes-discrete d.name v m in
      ground (
        arith,
        by_name_absent defs m' q,
        map_get-map_put Bytes-discrete q d.name v m,
        bytes_eq_iff d.name q,
      )

  by_name_present :
      (defs : List IdentityDefinition) (seen : List Bytes) (m : List (Bytes × Bytes)) (i : ℕ)
      (d : IdentityDefinition)
      → Distinct seen (names_from_defs defs)
      → get_elem? defs i ≡ some d
      → map_get Bytes-discrete d.name (resolve_by_name trim_space header n defs m)
        ≡ some (header_value trim_space header n d.headers)
  unfolding resolve_by_name names_from_defs
  by_name_present [] seen m i d ds at = absurd (ground arith)
  by_name_present (e ∷ defs) seen m zero d ds at =
      let v = header_value trim_space header n e.headers in
      let same : e ≡ d = ground arith in
      ground (
        arith,
        by_name_absent defs (map_put Bytes-discrete e.name v m) e.name (
            Distinct-absent (e.name ∷ seen) (names_from_defs defs) e.name ds.1
              (unfold contains_string in ground (arith, bytes_eq_iff e.name e.name))),
        map_get-map_put Bytes-discrete e.name e.name v m,
      )
  by_name_present (e ∷ defs) seen m (suc i) d ds at =
      by_name_present defs (e.name ∷ seen) _ i d ds.1 at

  field_names :
      (defs : List IdentityDefinition) (m : List (Bytes × Bytes)) (q : Bytes)
      → contains_string (names_from_defs defs) q ≡ true
      → (v : Bytes) × (map_get Bytes-discrete q (resolve_by_name trim_space header n defs m)
          ≡ some v)
  unfolding resolve_by_name contains_string names_from_defs
  field_names [] m q h = absurd (ground arith)
  field_names (d ∷ defs) m q h =
      let w = header_value trim_space header n d.headers in
      let m' = map_put Bytes-discrete d.name w m in
      elim (Bool-cases (contains_string (names_from_defs defs) q)) [
        | inl t ↦ field_names defs m' q t
        | inr t ↦ (
          w,
          ground (
            arith,
            by_name_absent defs m' q t,
            map_get-map_put Bytes-discrete q d.name w m,
            bytes_eq_iff d.name q,
          ),
        )
      ]

  -- With a positive length limit an identity value is never empty, and it is longer than the limit
  -- only where it is `unknown`.
  pub header_value_bounds :
      (headers : List Bytes)
      → ltb_ℤ (pos 0) n ≡ true
      → (header_value trim_space header n headers ≢ [])
        × ((length (header_value trim_space header n headers) ≤ pos_part n)
            ⊎ (header_value trim_space header n headers ≡ unknown_identity))
  unfolding header_value
  header_value_bounds [] positive = ((λ e. ground arith), inr refl)
  header_value_bounds (h ∷ headers) positive =
      let raw = trim_space (header h) in
      elim (Bool-cases (bytes_eq raw [])) [
        | inl blank ↦ rw blank (header_value_bounds headers positive)
        | inr some_text ↦ rw some_text (cut_value n raw some_text positive)
      ]

module _ (trim_space : Bytes → Bytes) (header : Bytes → Bytes) (s : IdentitySet) where
  -- With distinct names, `Get` of a configured field gives the first of its headers that is not
  -- blank, trimmed and cut to the limit, or `unknown`.
  pub resolve-identity_get :
      (i : ℕ) (d : IdentityDefinition)
      → Distinct [] (names_from_defs s.defs)
      → get_elem? s.defs i ≡ some d
      → identity_get (resolve trim_space header s) d.name
        ≡ header_value trim_space header s.max_identity_length d.headers
  unfolding identity_get resolve
  resolve-identity_get i d distinct at =
      ground (
        arith,
        by_name_present trim_space header s.max_identity_length s.defs [] [] i d distinct at,
      )

  -- A request has exactly the configured fields, and any other name reads as `unknown` and is not
  -- known.
  pub resolve-has_field :
      (q : Bytes)
      → (has_field (resolve trim_space header s) q ≡ has s q)
        × ((has s q || bytes_eq (identity_get (resolve trim_space header s) q) unknown_identity)
            ≡ true)
        × ((has_known (resolve trim_space header s) q && not (has s q)) ≡ false)
  unfolding identity_get has_field has_known has resolve
  resolve-has_field q = elim (Bool-cases (contains_string (names_from_defs s.defs) q)) [
    | inl t ↦
        let (v, e) = field_names trim_space header s.max_identity_length s.defs [] q t in
        (ground arith, ground arith, ground arith)
    | inr t ↦
        let absent = by_name_absent trim_space header s.max_identity_length s.defs [] q t in
        let same = bytes_eq_refl unknown_identity in
        (
          ground (arith, absent, nothing_read q),
          ground (arith, absent, nothing_read q, same),
          ground (arith, absent, nothing_read q, same),
        )
  ]
