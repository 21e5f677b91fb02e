-- ===== src/Analytics/Sectors.antt =====
-- `fetchSectorExposure` of store/analyticsStore.ts, behind its request, before its sort by weight.
use aiautomation.Common.{
  ℕ, ◌+◌, String, ◌==◌, ◌≡◌, refl, subst, Option, none, some, List, [], ◌∷◌, length, or_else,
  if◌then◌else◌, Dict, lookup, insert, arith, Bool-cases, inl, inr,
}
use aiautomation.Analytics.{ExposedPosition, SectorExposureRow, Calc}

abbrev pub sector_of : String → String
sector_of s = if s == "" then "Unknown" else s

module _ {N : Type 0} (calc : Calc N) where
  abbrev pub empty_row : String → SectorExposureRow N
  empty_row sector = record {
    sector = sector;
    weight_pct = calc.zero_;
    value = calc.zero_;
    position_count = 0;
    pnl = calc.zero_;
  }

  unfoldable pub add_position : ExposedPosition N → SectorExposureRow N → SectorExposureRow N
  add_position p r = record r {
    weight_pct = calc.add r.weight_pct p.weight_pct;
    value = calc.add r.value p.value;
    position_count = r.position_count + 1;
    pnl = calc.add r.pnl p.pnl;
  }

  -- the loop
  unfoldable pub sector_map :
      Dict (SectorExposureRow N) → List (ExposedPosition N) → Dict (SectorExposureRow N)
  unfolding add_position
  sector_map m [] = m
  sector_map m (p ∷ ps) =
      let s = sector_of p.sector in
      sector_map (insert s (add_position p (or_else (lookup s m) (empty_row s))) m) ps

abbrev pub total_count : {N : Type 0} → Dict (SectorExposureRow N) → ℕ
total_count [] = 0
total_count ((k, r) ∷ m) = r.position_count + total_count m

module _ {N : Type 0} (calc : Calc N) where
  total_count-insert_at :
      (s : String) (p : ExposedPosition N) (m : Dict (SectorExposureRow N))
      (o : Option (SectorExposureRow N))
      → lookup s m ≡ o
      → total_count (insert s (add_position calc p (or_else o (empty_row calc s))) m)
        ≡ total_count m + 1
  unfolding insert lookup add_position
  total_count-insert_at s p [] none q = omega arith
  total_count-insert_at s p [] (some r) q = cc
  total_count-insert_at s p ((k, r) ∷ m) o q = elim (Bool-cases (k == s)) [
    | inl e ↦
        let found : some r ≡ o = rw e at q in
        rw e (
          subst
            (λ x.
              (or_else x (empty_row calc s)).position_count + 1 + total_count m
              ≡ r.position_count + total_count m + 1)
            found (omega arith))
    | inr e ↦ rw e (omega (arith, total_count-insert_at s p m o (rw e at q)))
  ]

  total_count-insert :
      (s : String) (p : ExposedPosition N) (m : Dict (SectorExposureRow N))
      → total_count (insert s (add_position calc p (or_else (lookup s m) (empty_row calc s))) m)
        ≡ total_count m + 1
  total_count-insert s p m = total_count-insert_at s p m (lookup s m) refl

  total_count-sector_map_from :
      (m : Dict (SectorExposureRow N)) (ps : List (ExposedPosition N))
      → total_count (sector_map calc m ps) ≡ total_count m + length ps
  unfolding sector_map
  total_count-sector_map_from m [] = omega arith
  total_count-sector_map_from m (p ∷ ps) =
      let s = sector_of p.sector in
      omega (
        arith,
        total_count-sector_map_from
            (insert s (add_position calc p (or_else (lookup s m) (empty_row calc s))) m) ps,
        total_count-insert s p m,
      )

  -- Every position counts in one sector: the counts of all sectors add up to the number of
  -- positions.
  pub total_count-sector_map :
      (ps : List (ExposedPosition N)) → total_count (sector_map calc [] ps) ≡ length ps
  total_count-sector_map ps = omega (arith, total_count-sector_map_from [] ps)
