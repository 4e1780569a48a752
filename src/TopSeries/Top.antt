-- ===== src/TopSeries/Top.antt =====
-- `Collect` reports the entries with the highest counts.
use mathlib.Core.List.{Perm}
use remote_write_inspector.Prelude.{
  ℕ, ◌≤◌, ◌≡◌, refl, sym, subst, ◌⊎◌, inl, inr, false, List, [], ◌∷◌, ◌++◌, arith, length, take,
  drop, take-append-drop, length-take, ltb, Bool-cases,
}
use remote_write_inspector.Prelude.Sorting.{All, IsSorted}
use remote_write_inspector.Prelude.Int.{ℤ}
use remote_write_inspector.TopSeries.Types.{TopSeriesEntry, TopSeriesCollector}
use remote_write_inspector.TopSeries.{entry_less, entry_values, reset_expired, collect}
use mathlib.Core.List.{append-nil}

less_count : (x y : TopSeriesEntry) → entry_less y x ≡ false → y.count ≤ x.count
unfolding entry_less
less_count x y h = ground arith

-- An entry that is not counted more often than the first of a list that is in order.
after_first :
    (n : ℕ) (x : TopSeriesEntry) (l : List TopSeriesEntry)
    → x.count ≤ n
    → IsSorted entry_less (x ∷ l)
    → All (λ d. d.count ≤ n) l
after_first n x [] h s = tt
after_first n x (y ∷ l) h s =
    let le : y.count ≤ n = omega (arith, less_count x y s.0) in (le, after_first n y l le s.1)

All-suffix : {A : Type 0} (P : A → Type 0) (xs ys : List A) → All P (xs ++ ys) → All P ys
All-suffix P [] ys a = a
All-suffix P (x ∷ xs) ys a = All-suffix P xs ys a.1

All-both :
    {A : Type 0} (P Q : A → Type 0) (xs : List A) → All P xs → All Q xs → All (λ x. P x × Q x) xs
All-both P Q [] p q = tt
All-both P Q (x ∷ xs) p q = ((p.0, q.0), All-both P Q xs p.1 q.1)

All-nothing : {A : Type 0} (xs : List A) → All (λ x. Unit {0}) xs
All-nothing [] = tt
All-nothing (x ∷ xs) = (tt, All-nothing xs)

IsSorted-tail :
    (x : TopSeriesEntry) (l : List TopSeriesEntry)
    → IsSorted entry_less (x ∷ l)
    → IsSorted entry_less l
IsSorted-tail x [] s = tt
IsSorted-tail x (y ∷ l) s = s.1

-- No entry of the second list is counted more often than one of the first.
abbrev pub NoneAbove : List TopSeriesEntry → List TopSeriesEntry → Type 0
NoneAbove top rest = All (λ d. All (λ e. d.count ≤ e.count) top) rest

sorted-NoneAbove :
    (top rest : List TopSeriesEntry) → IsSorted entry_less (top ++ rest) → NoneAbove top rest
sorted-NoneAbove [] rest s = All-nothing rest
sorted-NoneAbove (x ∷ top) rest s =
    All-both _ _ rest (All-suffix _ top rest (after_first x.count x (top ++ rest) (omega arith) s))
      (sorted-NoneAbove top rest (IsSorted-tail x (top ++ rest) s))

-- The entries `all` are, up to order, the reported ones and the others; there are at most `n` reported
-- ones, exactly `n` where any is left out, and none left out is counted more often than one of them.
pub record Reported (n : ℕ) (all top : List TopSeriesEntry) : Type 0 where
  pub others : List TopSeriesEntry
  pub parts : Perm (top ++ others) all
  pub few : length top ≤ n
  pub full : (others ≡ []) ⊎ (length top ≡ n)
  pub highest : NoneAbove top others

module _ (arrange : List TopSeriesEntry → List TopSeriesEntry) where
  -- Where the sort gives the window's entries in order, `Collect` reports at most `maxSeries` of them,
  -- fewer only if there are no more, and leaves out none that is counted more often than a reported
  -- one.
  pub collect-Reported :
      (c : TopSeriesCollector) (now : ℤ)
      → let all = entry_values (reset_expired c now).entries in
        Perm (arrange all) all
        → IsSorted entry_less (arrange all)
        → Reported (reset_expired c now).max_series all (collect arrange c now).1
  unfolding collect
  collect-Reported c now p s =
      let c1 = reset_expired c now in
      let all = entry_values c1.entries in
      let n = c1.max_series in
      let l = arrange all in
      elim (Bool-cases (ltb n (length l))) [
        | inl t ↦ rw t (record {
          others = drop n l;
          parts = subst (λ m. Perm m all) (sym (take-append-drop n l)) p;
          few = omega (arith, length-take n l);
          full = inr (ground (arith, length-take n l));
          highest =
              sorted-NoneAbove (take n l) (drop n l)
                (subst (IsSorted entry_less) (sym (take-append-drop n l)) s);
        })
        | inr t ↦ rw t (record {
          others = [];
          parts = subst (λ m. Perm m all) (sym (append-nil l)) p;
          few = ground arith;
          full = inl refl;
          highest = tt;
        })
      ]
