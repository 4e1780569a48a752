-- ===== src/TopSeries/Joined.antt =====
-- What the joined identity values determine.
use remote_write_inspector.Prelude.{◌≢◌, ◌≡◌, refl, List, [], ◌∷◌, ◌++◌, length, arith}
use remote_write_inspector.Prelude.Sorting.{All}
use remote_write_inspector.Prelude.Bytes.{Bytes}
use remote_write_inspector.TopSeries.{join_rest, join_identity_values}

-- The byte 0xff, which no UTF-8 text holds, does not occur.
abbrev pub NoMark : Bytes → Type 0
NoMark s = All (λ c. c ≢ 255) s

until_mark :
    (v w : Bytes) (vs ws : List Bytes)
    → NoMark v
    → NoMark w
    → v ++ join_rest vs ≡ w ++ join_rest ws
    → (v ≡ w) × (join_rest vs ≡ join_rest ws)
unfolding join_rest
until_mark [] [] vs ws n m e = (refl, e)
until_mark [] (d ∷ w) [] ws n m e = absurd (ground arith)
until_mark [] (d ∷ w) (v' ∷ vs) ws n m e = absurd (ground (arith, m.0))
until_mark (c ∷ v) [] vs [] n m e = absurd (ground arith)
until_mark (c ∷ v) [] vs (w' ∷ ws) n m e = absurd (ground (arith, n.0))
until_mark (c ∷ v) (d ∷ w) vs ws n m e =
    let (p, q) = until_mark v w vs ws n.1 m.1 (ground arith) in (ground arith, q)

join_rest-injective :
    (vs ws : List Bytes) → All NoMark vs → All NoMark ws → join_rest vs ≡ join_rest ws → vs ≡ ws
unfolding join_rest
join_rest-injective [] [] n m e = refl
join_rest-injective [] (w ∷ ws) n m e = absurd (ground arith)
join_rest-injective (v ∷ vs) [] n m e = absurd (ground arith)
join_rest-injective (v ∷ vs) (w ∷ ws) n m e =
    let (p, q) = until_mark v w vs ws n.0 m.0 (ground arith) in
    let r = join_rest-injective vs ws n.1 m.1 q in ground arith

-- Two requests with as many identity values each, none of which holds the byte 0xff, have the
-- same joined values only where all their values agree.
pub join_identity_values-injective :
    (vs ws : List Bytes)
    → length vs ≡ length ws
    → All NoMark vs
    → All NoMark ws
    → join_identity_values vs ≡ join_identity_values ws
    → vs ≡ ws
unfolding join_identity_values
join_identity_values-injective [] [] l n m e = refl
join_identity_values-injective [] (w ∷ ws) l n m e = absurd (ground arith)
join_identity_values-injective (v ∷ vs) [] l n m e = absurd (ground arith)
join_identity_values-injective (v ∷ vs) (w ∷ ws) l n m e =
    let (p, q) = until_mark v w vs ws n.0 m.0 e in
    let r = join_rest-injective vs ws n.1 m.1 q in ground arith
