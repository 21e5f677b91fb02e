-- ===== src/Signals/Build.antt =====
-- utils/opportunitySignals.ts: buildOpportunitySignal.
use Prim.Native.String
use aiautomation.Common.{
  ℕ, ◌+◌, min, max, String, ◌==◌, Bool, false, not, ◌&&◌, ◌||◌, Option, none, some, or_else, List,
  [], ◌∷◌, ◌++◌, take, leb, if◌then◌else◌,
}
use aiautomation.Market.{MarketQuote}
use aiautomation.Signals.{OpportunitySignal, buy_opportunity, sell_risk, neutral, Measures}

-- A score with the reasons for it.
pub record Tally : Type 0 where
  pub score : ℕ
  pub reasons : List String

-- `if (test) { score += points; reasons.push(reason) }`
unfoldable pub award : Bool → ℕ → String → Tally → Tally
award test points reason t =
    if test then record { score = t.score + points; reasons = t.reasons ++ reason ∷ [] } else t

abbrev pub no_points : Tally
no_points = record { score = 0; reasons = [] }

-- `clamp(Math.round(score), lo, hi)` of a whole score
abbrev pub clamp_score : ℕ → ℕ → ℕ → ℕ
clamp_score score lo hi = min hi (max lo score)

-- The text `before`, a number and the text `behind` it.
abbrev text : String → String → String → String
text before number behind = String.◌++◌ before (String.◌++◌ number behind)

-- the three returns; `net >= 12` is `sell + 12 <= buy`
unfoldable pub judge : {N : Type 0} → String → N → Tally → Tally → OpportunitySignal N
judge symbol sentiment buy sell =
    if leb 50 buy.score && leb (sell.score + 12) buy.score
    then record {
      symbol = symbol;
      kind = buy_opportunity;
      confidence = clamp_score buy.score 50 99;
      sentiment_proxy = sentiment;
      score = buy.score;
      reasons = take 3 buy.reasons;
    }
    else (if leb 50 sell.score && leb (buy.score + 12) sell.score
        then record {
          symbol = symbol;
          kind = sell_risk;
          confidence = clamp_score sell.score 50 99;
          sentiment_proxy = sentiment;
          score = sell.score;
          reasons = take 3 sell.reasons;
        }
        else record {
          symbol = symbol;
          kind = neutral;
          confidence = clamp_score (max buy.score sell.score) 0 49;
          sentiment_proxy = sentiment;
          score = max buy.score sell.score;
          reasons = "mixed setup" ∷ [];
        })

module _ {N : Type 0} (m : Measures N) where
  abbrev clamp : N → N → N → N
  clamp value lo hi = m.min_ hi (m.max_ lo value)

  -- `toNumber`, of a number or of undefined
  abbrev pub finite_or_none : Option N → Option N
  finite_or_none none = none
  finite_or_none (some x) = if m.is_finite x then some x else none

  -- `x == null || x <= 0` gives null
  abbrev positive : Option N → Option N
  positive none = none
  positive (some x) = if m.at_most x (m.of_count 0) then none else some x

  -- `(part / whole) * 100` of a whole that is there
  abbrev percent_of : Option N → (N → N) → Option N
  percent_of none part = none
  percent_of (some whole) part = some (m.mul (m.div (part whole) whole) (m.of_count 100))

  unfoldable pub discount_from_high : MarketQuote N → Option N
  discount_from_high q =
      percent_of (positive (finite_or_none q.year_high)) (λ high. m.sub high q.price)

  unfoldable pub rebound_from_low : MarketQuote N → Option N
  rebound_from_low q = percent_of (positive (finite_or_none q.year_low)) (λ low. m.sub q.price low)

  abbrev ratio_of : Option N → Option N → Option N
  ratio_of (some vol) (some avg) = some (m.div vol avg)
  ratio_of none _ = none
  ratio_of (some vol) none = none

  unfoldable pub volume_ratio : MarketQuote N → Option N
  volume_ratio q = ratio_of (finite_or_none q.volume) (positive (finite_or_none q.avg_volume))

  -- `x != null && test(x)`
  abbrev has : Option N → (N → Bool) → Bool
  has none test = false
  has (some x) test = test x

  -- the text of `x!`, which is there where it is used
  abbrev show_of : (N → String) → Option N → String
  show_of f x = f (or_else x (m.of_count 0))

  abbrev pub change_of : MarketQuote N → N
  change_of q = or_else (finite_or_none (some q.change_pct)) (m.of_count 0)

  abbrev heavy_volume : MarketQuote N → Bool
  heavy_volume q = has (volume_ratio q) (λ r. m.at_most (m.tenths 15) r)

  unfoldable pub buy_tally : MarketQuote N → Tally
  unfolding award discount_from_high rebound_from_low volume_ratio
  buy_tally q =
      let change = change_of q in
      let deep = has (discount_from_high q) (λ d. m.at_most (m.of_count 20) d) in
      let near_low = has (rebound_from_low q) (λ r. m.at_most r (m.of_count 18)) in
      award (heavy_volume q && m.is_less change (m.of_count 0)) 18
        (text "capitulation volume (" (show_of m.fixed1 (volume_ratio q)) "x)")
        (award near_low 14
          (text "near 52W low (+" (show_of (λ x. m.show (m.round x)) (rebound_from_low q)) "%)")
          (award (m.at_most change (m.minus 3)) 25 (text "strong pullback (" (m.fixed1 change) "%)")
            (award deep 35
              (text "-" (show_of (λ x. m.show (m.round x)) (discount_from_high q))
                "% from 52W high")
              no_points)))

  unfoldable pub sell_tally : MarketQuote N → Tally
  unfolding award discount_from_high volume_ratio
  sell_tally q =
      let change = change_of q in
      let near_high = has (discount_from_high q) (λ d. m.at_most d (m.of_count 5)) in
      award (heavy_volume q && m.is_less (m.of_count 0) change) 18
        (text "crowded volume (" (show_of m.fixed1 (volume_ratio q)) "x)")
        (award (m.at_most (m.of_count 8) change) 10 "overextended move" (
          award (m.at_most (m.of_count 4) change) 25
            (text "extended rally (+" (m.fixed1 change) "%)")
            (award near_high 35
              (text "near 52W high (-" (show_of (λ x. m.show (m.round x)) (discount_from_high q))
                "%)")
              no_points)))

  unfoldable pub sentiment_of : MarketQuote N → N
  unfolding volume_ratio
  sentiment_of q =
      let volume = m.sub (or_else (volume_ratio q) (m.of_count 1)) (m.of_count 1) in
      clamp (m.round (m.add (m.mul (change_of q) (m.of_count 8)) (m.mul volume (m.of_count 12))))
        (m.minus 100) (m.of_count 100)

  -- no symbol, no price that counts, or a quote older than ninety seconds
  unfoldable pub is_unusable : MarketQuote N → Bool
  is_unusable q =
      q.symbol == ""
      || not (m.is_finite q.price)
      || m.at_most q.price (m.of_count 0)
      || m.is_less (m.of_count 90) (or_else q.stale_s (m.of_count 0))

  unfoldable pub build_opportunity_signal : MarketQuote N → Option (OpportunitySignal N)
  unfolding is_unusable judge buy_tally sell_tally sentiment_of
  build_opportunity_signal q =
      if is_unusable q
      then none
      else some (judge q.symbol (sentiment_of q) (buy_tally q) (sell_tally q))
