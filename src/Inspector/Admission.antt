-- ===== src/Inspector/Admission.antt =====
-- internal/inspector/inspector.go: `tryAdmit` and `release` on the buffered channel, and the steps that
-- concurrent requests take through `receiveHTTP` (server.go): each is admitted or turned away when it
-- arrives, and an admitted one releases its slot when it ends, by the deferred call.
use remote_write_inspector.Prelude.{
  ℕ, zero, suc, ◌+◌, ◌≤◌, ◌<◌, ◌≡◌, refl, List, [], ◌∷◌, ◌++◌, Option, none, some, arith, length,
  length-append, ltb, if◌then◌else◌,
}

-- A send that does not block puts one element into the channel; `none` is the default case.
unfoldable pub try_admit : ℕ → ℕ → Option ℕ
try_admit capacity used = if ltb used capacity then some (used + 1) else none

-- A receive; `none` is a receive that blocks.
unfoldable pub release : ℕ → Option ℕ
release zero = none
release (suc n) = some n

-- The elements in the channel, and the requests that are being worked on.
pub record Gate : Type 0 where
  pub used : ℕ
  pub inside : List ℕ

pub data Step (capacity : ℕ) : Gate → Gate → Type 0 where
  admitted :
      (g : Gate) (request used : ℕ)
      → try_admit capacity g.used ≡ some used
      → Step capacity g (record { used = used; inside = request ∷ g.inside })
  turned_away : (g : Gate) → try_admit capacity g.used ≡ none → Step capacity g g
  ended :
      (used request : ℕ) (before after : List ℕ) (used' : ℕ)
      → release used ≡ some used'
      → Step capacity
          (record { used = used; inside = before ++ (request ∷ after) })
          (record { used = used'; inside = before ++ after })

pub data Steps (capacity : ℕ) : Gate → Gate → Type 0 where
  start : (g : Gate) → Steps capacity g g
  step_on : {g g' g'' : Gate} → Steps capacity g g' → Step capacity g' g'' → Steps capacity g g''

abbrev pub closed : Gate
closed = record { used = 0; inside = [] }

module _ (capacity : ℕ) where
  record Counted (g : Gate) : Type 0 where
    counts : g.used ≡ length g.inside
    limited : g.used ≤ capacity

  Step-Counted : {g g' : Gate} → Step capacity g g' → Counted g → Counted g'
  unfolding try_admit release
  Step-Counted (admitted g request used e) c = record {
    counts = ground (arith, c.counts);
    limited = ground (arith, c.limited);
  }
  Step-Counted (turned_away g e) c = c
  Step-Counted (ended zero request before after used' e) c = absurd (ground arith)
  Step-Counted (ended (suc n) request before after used' e) c =
      let same : n ≡ used' = ground arith in
      record {
        counts = omega (
          arith,
          same,
          c.counts,
          length-append before (request ∷ after),
          length-append before after,
        );
        limited = omega (arith, same, c.limited);
      }

  Steps-Counted : {g g' : Gate} → Steps capacity g g' → Counted g → Counted g'
  Steps-Counted (start g) c = c
  Steps-Counted (step_on steps step) c = Step-Counted step (Steps-Counted steps c)

  release_total : (used : ℕ) → 0 < used → (used' : ℕ) × (release used ≡ some used')
  unfolding release
  release_total zero h = absurd (omega arith)
  release_total (suc n) h = (n, refl)

  -- Whatever requests arrive and end, in whatever order: never more of them are worked on than
  -- `MaxInFlightRequests`; a request is turned away only while that many are; and one that ends does
  -- not wait for its slot.
  pub Steps-bounded :
      (g : Gate)
      → Steps capacity closed g
      → (length g.inside ≤ capacity)
        × (try_admit capacity g.used ≡ none → length g.inside ≡ capacity)
        × (0 < length g.inside → (used : ℕ) × (release g.used ≡ some used))
  unfolding try_admit
  Steps-bounded g s =
      let c = Steps-Counted s (record { counts = refl; limited = omega arith }) in
      (
        omega (arith, c.counts, c.limited),
        (λ full. ground (arith, c.counts, c.limited)),
        λ h. release_total g.used (omega (arith, c.counts)),
      )
