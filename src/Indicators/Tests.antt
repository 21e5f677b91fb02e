-- ===== src/Indicators/Tests.antt =====
-- Runs of the indicators: over the integers, whose sums are exact, and over the native numbers.
use mathlib.Core.Int.{
  ℤ, pred_ℤ, pos, negsuc, ◌+ℤ◌, ◌-ℤ◌, ◌*ℤ◌, neg_ℤ, +ℤ_assoc, +ℤ_comm, -ℤ-+ℤ_cancel,
}
use aiautomation.Common.{
  ◌+◌, ◌-◌, ◌*◌, ◌/◌, ℕ, ◌≤◌, max, ◌≡◌, refl, ◌∙◌, true, ◌&&◌, List, [], ◌∷◌, All, arith, map, eqb,
  ltb,
}
use aiautomation.Common.Integers.{quotient, of_count, larger, at_least_zero, root}
use aiautomation.Market.{Bar}
use aiautomation.Indicators.{Reals}
use aiautomation.Indicators.Averages.{add_closes, sma_loop, sma_from, calc_sma, calc_bb}
use aiautomation.Indicators.Oscillators.{calc_rsi, calc_macd}
use aiautomation.Indicators.Sums.{IsExact, windows}
use aiautomation.Indicators.Windows.{
  values_of, rounded_mean, upper_of, lower_of, calc_sma-windows, calc_bb-windows,
}
use aiautomation.Indicators.Bounds.{IsOrdered, IsPercent, calc_rsi-ArePercents}
use aiautomation.Indicators.Times.{IsRising, bar_times, HasLines, calc_macd-HasLines}

abbrev same : ℤ → ℤ
same a = a

abbrev whole : Reals ℤ
whole = record {
  zero_ = pos 0;
  of_count = of_count;
  add = ◌+ℤ◌;
  sub = ◌-ℤ◌;
  mul = ◌*ℤ◌;
  div = quotient;
  neg = neg_ℤ;
  max_ = larger;
  sqrt = root;
  to_fixed = same;
  to_fixed2 = same;
  is_positive = λ a. at_least_zero (pred_ℤ a);
  is_nonneg = at_least_zero;
  is_zero = λ a. at_least_zero a && at_least_zero (neg_ℤ a);
}

whole-IsExact : IsExact whole
whole-IsExact = record {
  add_assoc = +ℤ_assoc;
  add_comm = +ℤ_comm;
  add_sub = λ a b. +ℤ_comm a (b -ℤ a) ∙ -ℤ-+ℤ_cancel b a;
}

abbrev day_bar : ℕ → ℤ → Bar ℤ
day_bar t c = record { time = t; open_ = c; high = c; low = c; close = c; volume = pos 1 }

abbrev week : List (Bar ℤ)
week = day_bar 1 (pos 4) ∷ day_bar 2 (pos 8) ∷ day_bar 3 (pos 2) ∷ day_bar 4 (negsuc 1) ∷ []

sma_of_week : values_of (calc_sma whole week 2) ≡ pos 6 ∷ pos 5 ∷ pos 0 ∷ []
unfolding calc_sma sma_from sma_loop add_closes
sma_of_week = refl

calc_sma-windows_example :
    values_of (calc_sma whole week 2) ≡ map (rounded_mean whole 2) (windows 2 week)
calc_sma-windows_example = calc_sma-windows whole whole-IsExact 1 week

calc_bb-windows_example :
    (values_of (calc_bb whole week 2 (pos 2)).upper
      ≡ map (upper_of whole 2 (pos 2)) (windows 2 week))
    × (values_of (calc_bb whole week 2 (pos 2)).lower
        ≡ map (lower_of whole 2 (pos 2)) (windows 2 week))
calc_bb-windows_example = calc_bb-windows whole whole-IsExact (pos 2) 1 week

-- The native numbers, whose subtraction stops at zero.
abbrev native : Reals ℕ
native = record {
  zero_ = 0;
  of_count = λ n. n;
  add = ◌+◌;
  sub = ◌-◌;
  mul = ◌*◌;
  div = ◌/◌;
  neg = λ a. 0;
  max_ = max;
  sqrt = λ a. a;
  to_fixed = λ a. a;
  to_fixed2 = λ a. a;
  is_positive = λ a. ltb 0 a;
  is_nonneg = λ a. true;
  is_zero = λ a. eqb a 0;
}

div_le : (a b : ℕ) → a / b ≤ a
div_le a b = omega arith

native-IsOrdered : IsOrdered native ◌≤◌
native-IsOrdered = record {
  le_refl = λ a. omega arith;
  trans = λ h k. omega arith;
  zero_le_of_count = λ n. omega arith;
  add_nonneg = λ h k. omega arith;
  mul_nonneg = λ h k. omega arith;
  div_nonneg = λ h k e. omega arith;
  suc_ne_zero = λ n. ground arith;
  max_nonneg = λ a. omega arith;
  one_add = λ h. omega arith;
  div_le = λ {a} {b} h k. div_le a b;
  zero_le_div = λ h k. omega arith;
  sub_nonneg = λ h. omega arith;
  sub_le = λ h. omega arith;
  nonneg_of_test = λ h. omega arith;
  le_zero_of_test = λ h. cc;
  to_fixed2_mono = λ h. h;
}

abbrev day : ℕ → ℕ → Bar ℕ
day t c = record { time = t; open_ = c; high = c; low = c; close = c; volume = 1 }

abbrev days : List (Bar ℕ)
days = day 1 10 ∷ day 2 14 ∷ day 3 12 ∷ day 4 19 ∷ []

calc_rsi-ArePercents_example : All (λ p. IsPercent native ◌≤◌ p.value) (calc_rsi native days 2)
calc_rsi-ArePercents_example = calc_rsi-ArePercents native ◌≤◌ native-IsOrdered 1 days

days-IsRising : IsRising (bar_times days)
days-IsRising = (
  (omega arith, (omega arith, (omega arith, tt))),
  ((omega arith, (omega arith, tt)), ((omega arith, tt), (tt, tt))),
)

calc_macd-HasLines_example : HasLines (calc_macd native days 1 2 2) (2 ∷ 3 ∷ 4 ∷ []) (3 ∷ 4 ∷ [])
calc_macd-HasLines_example = calc_macd-HasLines native 0 1 1 days days-IsRising
