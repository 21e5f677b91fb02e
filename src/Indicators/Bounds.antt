-- ===== src/Indicators/Bounds.antt =====
-- utils/indicators.ts: the range of calcRSI, in an ordered arithmetic.
use aiautomation.Common.{
  ℕ, suc, ◌≡◌, inl, inr, Bool-cases, true, false, List, [], ◌∷◌, All, length, take, drop, ltb,
}
use aiautomation.Market.{Bar}
use aiautomation.Indicators.{Reals, LinePoint}
use aiautomation.Indicators.Oscillators.{rsi_seed, to_rsi, wilder, rsi_loop, rsi_from, calc_rsi}

-- What the order of numbers satisfies, on those that are not negative. No law
-- is about a division by zero.
pub record IsOrdered {N : Type 0} (r : Reals N) (le : N → N → Type 0) : Type 0 where
  pub le_refl : (a : N) → le a a
  pub trans : {a b c : N} → le a b → le b c → le a c
  pub zero_le_of_count : (n : ℕ) → le r.zero_ (r.of_count n)
  pub add_nonneg : {a b : N} → le r.zero_ a → le r.zero_ b → le r.zero_ (r.add a b)
  pub mul_nonneg : {a b : N} → le r.zero_ a → le r.zero_ b → le r.zero_ (r.mul a b)
  pub div_nonneg :
      {a b : N} → le r.zero_ a → le r.zero_ b → r.is_zero b ≡ false → le r.zero_ (r.div a b)
  pub suc_ne_zero : (n : ℕ) → r.is_zero (r.of_count (suc n)) ≡ false
  pub max_nonneg : (a : N) → le r.zero_ (r.max_ a r.zero_)
  pub one_add : {a : N} → le r.zero_ a → le (r.of_count 1) (r.add (r.of_count 1) a)
  pub div_le : {a b : N} → le r.zero_ a → le (r.of_count 1) b → le (r.div a b) a
  pub zero_le_div : {a b : N} → le r.zero_ a → le (r.of_count 1) b → le r.zero_ (r.div a b)
  pub sub_nonneg : {a b : N} → le a b → le r.zero_ (r.sub b a)
  pub sub_le : {a b : N} → le r.zero_ a → le (r.sub b a) b
  pub nonneg_of_test : {a : N} → r.is_nonneg a ≡ true → le r.zero_ a
  pub le_zero_of_test : {a : N} → r.is_nonneg a ≡ false → le a r.zero_
  pub to_fixed2_mono : {a b : N} → le a b → le (r.to_fixed2 a) (r.to_fixed2 b)

module _ {N : Type 0} (r : Reals N) (le : N → N → Type 0) where
  -- Between zero and a hundred, both rounded.
  abbrev pub IsPercent : N → Type 0
  IsPercent x = le (r.to_fixed2 r.zero_) x × le x (r.to_fixed2 (r.of_count 100))

  abbrev pub ArePercents : List (LinePoint N) → Type 0
  ArePercents ps = All (λ p. IsPercent p.value) ps

module _ {N : Type 0} (r : Reals N) (le : N → N → Type 0) (laws : IsOrdered r le) where
  to_rsi-IsPercent : (g l : N) → le r.zero_ g → le r.zero_ l → IsPercent r le (to_rsi r g l)
  unfolding to_rsi
  to_rsi-IsPercent g l hg hl = elim (Bool-cases (r.is_zero l)) [
    | inl e ↦
        rw (e, to_rsi)
          (laws.to_fixed2_mono (laws.zero_le_of_count 100), laws.to_fixed2_mono (laws.le_refl _))
    | inr e ↦
        let ratio = laws.one_add (laws.div_nonneg hg hl e) in
        let whole = laws.zero_le_of_count 100 in
        rw (e, to_rsi)
          (
            laws.to_fixed2_mono (laws.sub_nonneg (laws.div_le whole ratio)),
            laws.to_fixed2_mono (laws.sub_le (laws.zero_le_div whole ratio)),
          )
  ]

  wilder-nonneg :
      (q : ℕ) (avg x : N) → le r.zero_ avg → le r.zero_ x → le r.zero_ (wilder r (suc q) avg x)
  wilder-nonneg q avg x ha hx =
      laws.div_nonneg (laws.add_nonneg (laws.mul_nonneg ha (laws.zero_le_of_count _)) hx)
        (laws.zero_le_of_count _) (laws.suc_ne_zero q)

  abbrev NotNegative : N × N → Type 0
  NotNegative sums = le r.zero_ sums.0 × le r.zero_ sums.1

  rsi_seed-NotNegative :
      (g l : N) (prev : Bar N) (bs : List (Bar N))
      → le r.zero_ g
      → le r.zero_ l
      → NotNegative (rsi_seed r g l prev bs)
  unfolding rsi_seed
  rsi_seed-NotNegative g l prev [] hg hl = (hg, hl)
  rsi_seed-NotNegative g l prev (b ∷ bs) hg hl =
      elim (Bool-cases (r.is_nonneg (r.sub b.close prev.close))) [
        | inl e ↦
            rw (e, rsi_seed)
              (rsi_seed-NotNegative (r.add g (r.sub b.close prev.close)) l b bs
                (laws.add_nonneg hg (laws.nonneg_of_test e)) hl)
        | inr e ↦
            rw (e, rsi_seed)
              (rsi_seed-NotNegative g (r.sub l (r.sub b.close prev.close)) b bs hg
                (laws.sub_nonneg (laws.trans (laws.le_zero_of_test e) hl)))
      ]

  rsi_loop-ArePercents :
      (q : ℕ) (g l : N) (prev : Bar N) (bs : List (Bar N))
      → le r.zero_ g
      → le r.zero_ l
      → ArePercents r le (rsi_loop r (suc q) g l prev bs)
  unfolding rsi_loop
  rsi_loop-ArePercents q g l prev [] hg hl = tt
  rsi_loop-ArePercents q g l prev (b ∷ bs) hg hl =
      let d = r.sub b.close prev.close in
      let up = wilder-nonneg q g _ hg (laws.max_nonneg d) in
      let down = wilder-nonneg q l _ hl (laws.max_nonneg (r.neg d)) in
      (
        to_rsi-IsPercent _ _ up down,
        rsi_loop-ArePercents q (wilder r (suc q) g (r.max_ d r.zero_))
            (wilder r (suc q) l (r.max_ (r.neg d) r.zero_)) b bs up down,
      )

  rsi_from-ArePercents :
      (q : ℕ) (sums : N × N) (bs : List (Bar N))
      → NotNegative sums
      → ArePercents r le (rsi_from r (suc q) sums bs)
  unfolding rsi_from
  rsi_from-ArePercents q sums [] h = tt
  rsi_from-ArePercents q sums (b ∷ bs) h =
      let mean-nonneg = λ (x : N) (hx : le r.zero_ x).
        laws.div_nonneg hx (laws.zero_le_of_count (suc q)) (laws.suc_ne_zero q) in
      let up = mean-nonneg sums.0 h.0 in
      let down = mean-nonneg sums.1 h.1 in
      (to_rsi-IsPercent _ _ up down, rsi_loop-ArePercents q _ _ b bs up down)

  -- In an ordered arithmetic, every value of `calcRSI` lies between zero and a hundred.
  pub calc_rsi-ArePercents :
      (q : ℕ) (bars : List (Bar N)) → ArePercents r le (calc_rsi r bars (suc q))
  unfolding calc_rsi
  calc_rsi-ArePercents q [] = tt
  calc_rsi-ArePercents q (b ∷ bs) = elim (Bool-cases (ltb (length (b ∷ bs)) (suc (suc q)))) [
    | inl e ↦ rw (e, calc_rsi) tt
    | inr e ↦
        rw (e, calc_rsi)
          (rsi_from-ArePercents q (rsi_seed r r.zero_ r.zero_ b (take (suc q) bs)) (drop q bs) (
            rsi_seed-NotNegative r.zero_ r.zero_ b (take (suc q) bs) (laws.le_refl _)
              (laws.le_refl _)))
  ]
