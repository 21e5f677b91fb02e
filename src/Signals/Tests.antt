-- ===== src/Signals/Tests.antt =====
-- Runs of the signals over the integers, in percent.
use mathlib.Core.Int.{ℤ, pos, negsuc, ◌+ℤ◌, ◌-ℤ◌, ◌*ℤ◌, neg_ℤ}
use mathlib.Core.Nat as Unary
use aiautomation.Common.{◌/◌, ◌≡◌, refl, true, if◌then◌else◌, none, some, List, [], ◌∷◌}
use aiautomation.Common.Integers.{quotient, of_count, at_most, is_below}
use aiautomation.Market.{MarketQuote}
use aiautomation.Signals.{OpportunitySignal, buy_opportunity, Measures}
use aiautomation.Signals.Build.{
  award, discount_from_high, rebound_from_low, volume_ratio, buy_tally, sell_tally, sentiment_of,
  judge, is_unusable, build_opportunity_signal,
}
use aiautomation.Signals.Sound.{AreThresholds, IsSound, build_opportunity_signal-IsSound}
use aiautomation.Signals.Rank.{
  IsRankingOf, rank_opportunity_signals, rank_opportunity_signals-IsRankingOf,
}

abbrev whole : Measures ℤ
whole = record {
  of_count = of_count;
  minus = λ n. neg_ℤ (of_count n);
  tenths = λ n. of_count (n / 10);
  add = ◌+ℤ◌;
  sub = ◌-ℤ◌;
  mul = ◌*ℤ◌;
  div = quotient;
  max_ = λ a b. if at_most a b then b else a;
  min_ = λ a b. if at_most a b then a else b;
  round = λ a. a;
  fixed1 = λ a. "number";
  show = λ a. "number";
  is_finite = λ a. true;
  at_most = at_most;
  is_less = is_below;
}

falls : (x : ℤ) → at_most x (neg_ℤ (of_count 3)) ≡ true → is_below x (of_count 0) ≡ true
falls (pos n) h = cc
falls (negsuc n) h = refl

rises : (n : Unary.ℕ) (x : ℤ) → at_most (pos (Unary.suc n)) x ≡ true → is_below (pos 0) x ≡ true
rises n (pos Unary.zero) h = cc
rises n (pos (Unary.suc k)) h = refl
rises n (negsuc k) h = cc

whole-AreThresholds : AreThresholds whole
whole-AreThresholds = record { falls = falls; rises = rises 3; soars = rises 7 }

abbrev quote : MarketQuote ℤ
quote = record {
  symbol = "AAPL";
  price = pos 10;
  change = negsuc 0;
  change_pct = negsuc 4;
  year_high = none;
  year_low = some (pos 9);
  market_cap = none;
  avg_volume = some (pos 2);
  volume = some (pos 4);
  bid = none;
  ask = none;
  last_update = "now";
  live_source = none;
  market_state = none;
  stale_s = none;
}

abbrev signal : OpportunitySignal ℤ
signal = record {
  symbol = "AAPL";
  kind = buy_opportunity;
  confidence = 57;
  sentiment_proxy = neg_ℤ (of_count 28);
  score = 57;
  reasons =
      "strong pullback (number%)" ∷ "near 52W low (+number%)" ∷ "capitulation volume (numberx)"
      ∷ [];
}

build_of_quote : build_opportunity_signal whole quote ≡ some signal
unfolding build_opportunity_signal is_unusable judge buy_tally sell_tally sentiment_of award
    discount_from_high rebound_from_low volume_ratio
build_of_quote = refl

build_opportunity_signal-IsSound_example : IsSound whole quote signal
build_opportunity_signal-IsSound_example =
    build_opportunity_signal-IsSound whole whole-AreThresholds quote build_of_quote

abbrev quotes : List (MarketQuote ℤ)
quotes = record quote { symbol = "SPY"; change_pct = pos 1 } ∷ quote ∷ []

rank_opportunity_signals-IsRankingOf_example :
    IsRankingOf whole quotes (rank_opportunity_signals whole quotes)
rank_opportunity_signals-IsRankingOf_example = rank_opportunity_signals-IsRankingOf whole quotes
