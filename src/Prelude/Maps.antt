-- ===== src/Prelude/Maps.antt =====
-- Go maps as association lists over a key type with decidable equality (`comparable`): reading,
-- storing and deleting, with the law of each as an equation under `ite`.
use Prim.Native.Nat.{◌+◌}
use mathlib.Core.Path.{◌≡◌, refl}
use mathlib.Core.Logic.{ite}
use mathlib.Core.List.{List, [], ◌∷◌}
use mathlib.Core.Option.{Option, none, some}
use native.Mathlib.Omega.{arith}
use remote_write_inspector.Prelude.Lists.{length}

-- A chain of steps that may fail. Where the steps are Go code, `none` is a run-time panic.
infixl 5 ◌>>=◌
abbrev pub ◌>>=◌ {ℓ κ} : {A : Type ℓ} {B : Type κ} → Option A → (A → Option B) → Option B
none >>= f = none
some a >>= f = f a

module _ {ℓ} {K V : Type ℓ} (dec : Discrete K) where
  -- `v, ok := m[k]`
  unfoldable pub map_get : K → List (K × V) → Option V
  map_get k [] = none
  map_get k ((j, v) ∷ m) = ite (dec j k) (some v) (map_get k m)

  -- `m[k] = v`
  unfoldable pub map_put : K → V → List (K × V) → List (K × V)
  map_put k v [] = (k, v) ∷ []
  map_put k v ((j, w) ∷ m) = ite (dec j k) ((k, v) ∷ m) ((j, w) ∷ map_put k v m)

  -- `delete(m, k)`
  unfoldable pub map_delete : K → List (K × V) → List (K × V)
  map_delete k [] = []
  map_delete k ((j, w) ∷ m) = ite (dec j k) (map_delete k m) ((j, w) ∷ map_delete k m)

  pub map_get-map_put :
      (j k : K) (v : V) (m : List (K × V))
      → map_get j (map_put k v m) ≡ ite (dec k j) (some v) (map_get j m)
  unfolding map_get map_put
  map_get-map_put j k v [] = refl
  map_get-map_put j k v ((i, w) ∷ m) = ground (arith, map_get-map_put j k v m)

  pub map_get-map_delete :
      (j k : K) (m : List (K × V)) → map_get j (map_delete k m) ≡ ite (dec k j) none (map_get j m)
  unfolding map_get map_delete
  map_get-map_delete j k [] = ground arith
  map_get-map_delete j k ((i, w) ∷ m) = ground (arith, map_get-map_delete j k m)

  pub length-map_put_new :
      (k : K) (v : V) (m : List (K × V))
      → map_get k m ≡ none
      → length (map_put k v m) ≡ length m + 1
  unfolding map_get map_put
  length-map_put_new k v [] h = omega arith
  length-map_put_new k v ((i, w) ∷ m) h = ground (arith, length-map_put_new k v m)

  pub length-map_put_old :
      (k : K) (v w : V) (m : List (K × V))
      → map_get k m ≡ some w
      → length (map_put k v m) ≡ length m
  unfolding map_get map_put
  length-map_put_old k v w [] h = absurd (ground arith)
  length-map_put_old k v w ((i, u) ∷ m) h = ground (arith, length-map_put_old k v w m)
