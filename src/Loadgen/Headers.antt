-- ===== src/Loadgen/Headers.antt =====
-- cmd/rwi-loadgen/main.go: `setRemoteWriteHeaders`. A header set of net/http is a map from canonical
-- names; what makes a name canonical is a parameter.
use remote_write_inspector.Prelude.{
  ◌+◌, ◌≡◌, ◌≢◌, refl, sym, ap, ◌∙◌, ◌&&◌, false, List, [], ◌∷◌, none, some, leb, if◌then◌else◌,
  map_get, map_put, map_get-map_put, arith,
}
use remote_write_inspector.Prelude.Bytes.{Bytes, codes, bytes_eq, bytes_eq_iff, Bytes-discrete}
use remote_write_inspector.Loadgen.Requests.{GeneratedRequest}

-- A text with small letters.
abbrev pub lower : Bytes → Bytes
lower [] = []
lower (c ∷ s) = (if leb b'A' c && leb c b'Z' then c + 32 else c) ∷ lower s

module _ (canonical : Bytes → Bytes) where
  -- `Header.Set` and `Header.Get`.
  unfoldable pub header_set : Bytes → Bytes → List (Bytes × Bytes) → List (Bytes × Bytes)
  header_set name value h = map_put Bytes-discrete (canonical name) value h

  unfoldable pub header_get : List (Bytes × Bytes) → Bytes → Bytes
  header_get h name = elim (map_get Bytes-discrete (canonical name) h) [
    | some value ↦ value
    | none ↦ []
  ]

  -- `setRemoteWriteHeaders`.
  unfoldable pub set_remote_write_headers :
      GeneratedRequest → List (Bytes × Bytes) → List (Bytes × Bytes)
  set_remote_write_headers generated h0 =
      let h1 = header_set (codes "Content-Encoding") (codes "snappy") h0 in
      let h2 = header_set (codes "Content-Type") (codes "application/x-protobuf") h1 in
      let h3 = header_set (codes "X-Prometheus-Remote-Write-Version") (codes "0.1.0") h2 in
      let h4 = header_set (codes "X-Scope-OrgID") generated.tenant h3 in
      let h5 = header_set (codes "X-Obs-Pipeline-Sink") generated.sink h4 in
      let h6 = header_set (codes "X-Obs-Input-Path") generated.path h5 in
      header_set (codes "X-Obs-Writer-ID") generated.writer h6

-- Only the case of letters makes a difference to a canonical name.
module _ (canonical : Bytes → Bytes)
    (same_letters : (s : Bytes) → lower (canonical s) ≡ lower s) where
  header_get-header_set_self :
      (name value : Bytes) (h : List (Bytes × Bytes))
      → header_get canonical (header_set canonical name value h) name ≡ value
  unfolding header_get header_set
  header_get-header_set_self name value h =
      ground (arith, map_get-map_put Bytes-discrete (canonical name) (canonical name) value h)

  canonical_ne : (a b : Bytes) → bytes_eq (lower a) (lower b) ≡ false → canonical a ≢ canonical b
  canonical_ne a b h e =
      ground (
        arith,
        bytes_eq_iff (lower a) (lower b),
        sym (same_letters a) ∙ ap lower e ∙ same_letters b,
      )

  header_get-header_set_ne :
      (name other value : Bytes) (h : List (Bytes × Bytes))
      → bytes_eq (lower other) (lower name) ≡ false
      → header_get canonical (header_set canonical other value h) name ≡ header_get canonical h name
  unfolding header_get header_set
  header_get-header_set_ne name other value h ne = ground (
    arith,
    map_get-map_put Bytes-discrete (canonical name) (canonical other) value h,
    canonical_ne other name ne,
  )

  -- The four headers of the identity.
  pub sent_headers :
      (g : GeneratedRequest) (h : List (Bytes × Bytes))
      → let sent = header_get canonical (set_remote_write_headers canonical g h) in
        (sent (codes "X-Scope-OrgID") ≡ g.tenant)
        × (sent (codes "X-Obs-Pipeline-Sink") ≡ g.sink)
        × (sent (codes "X-Obs-Input-Path") ≡ g.path)
        × (sent (codes "X-Obs-Writer-ID") ≡ g.writer)
  unfolding set_remote_write_headers bytes_eq
  sent_headers g h = (
    header_get-header_set_ne (codes "X-Scope-OrgID") (codes "X-Obs-Writer-ID") g.writer _ refl
        ∙ header_get-header_set_ne (codes "X-Scope-OrgID") (codes "X-Obs-Input-Path") g.path _ refl
        ∙ header_get-header_set_ne (codes "X-Scope-OrgID") (codes "X-Obs-Pipeline-Sink") g.sink _
            refl
        ∙ header_get-header_set_self (codes "X-Scope-OrgID") g.tenant _,
    header_get-header_set_ne (codes "X-Obs-Pipeline-Sink") (codes "X-Obs-Writer-ID") g.writer _ refl
        ∙ header_get-header_set_ne (codes "X-Obs-Pipeline-Sink") (codes "X-Obs-Input-Path") g.path _
            refl
        ∙ header_get-header_set_self (codes "X-Obs-Pipeline-Sink") g.sink _,
    header_get-header_set_ne (codes "X-Obs-Input-Path") (codes "X-Obs-Writer-ID") g.writer _ refl
        ∙ header_get-header_set_self (codes "X-Obs-Input-Path") g.path _,
    header_get-header_set_self (codes "X-Obs-Writer-ID") g.writer _,
  )
