-- ===== src/Activity/Summary.antt =====
-- What the statistics of store/alertStore.ts, computed when the backend is offline, say of the history.
use mathlib.Core.List.{Memᴰ}
use mathlib.Core.List.Memᴰ
use aiautomation.Common.{
  ℕ, zero, suc, ◌+◌, ◌*◌, ◌≤◌, ◌<◌, String, ◌≡◌, refl, sym, ap, ◌∙◌, ◌⊎◌, inl, inr, Bool, or_else,
  List, [], ◌∷◌, map, filter, take, length, length-take, length-map, ltb, All, All-take, All-imp,
  All-map, lookup, lookup-All_self, arith, Option-cases,
}
use aiautomation.Activity.{AlertHistory, SymbolCount}
use aiautomation.Activity.Stats.{
  day_ms, symbol_counts, sort_counts, count_of, total_within, daily_counts, fallback_stats,
}
use aiautomation.Activity.Counts.{
  occurrences, lookup-symbol_counts_all, Distinct-symbol_counts, Memᴰ-lookup, Falling,
  All-sort_counts, sort_counts-Falling, Memᴰ-sort_counts, first_or_below, Falling-take,
}

All-map_imp :
    {A B : Type 0} (P : A → Type 0) (Q : B → Type 0) (f : A → B) (xs : List A)
    → ((x : A) → P x → Q (f x))
    → All P xs
    → All Q (map f xs)
All-map_imp P Q f [] g h = tt
All-map_imp P Q f (x ∷ xs) g h = (g x h.0, All-map_imp P Q f xs g h.1)

-- Each symbol counts at least as often as those behind it.
abbrev pub IsFalling : List SymbolCount → Type 0
IsFalling [] = Unit
IsFalling (c ∷ cs) = All (λ d. d.count ≤ c.count) cs × IsFalling cs

map-IsFalling : (cs : List (String × ℕ)) → Falling cs → IsFalling (map count_of cs)
map-IsFalling [] h = tt
map-IsFalling (c ∷ cs) h = (
  All-map_imp (λ d. d.1 ≤ c.1) (λ d. d.count ≤ c.1) count_of cs (λ d l. l) h.0,
  map-IsFalling cs h.1,
)

module _ {N : Type 0} where
  -- A symbol is named, or the history has it at most as often as each of those that are.
  abbrev pub IsRanked : List (AlertHistory N) → List SymbolCount → String → Type 0
  IsRanked history top s =
      ((c : SymbolCount) × Memᴰ c top × (c.symbol ≡ s))
      ⊎ All (λ c. occurrences s history ≤ c.count) top

  -- The most frequent symbols of the history.
  abbrev pub AreTop : List (AlertHistory N) → List SymbolCount → String → Type 0
  AreTop history top s =
      (length top ≤ 5)
      × IsFalling top
      × All (λ c. c.count ≡ occurrences c.symbol history) top
      × IsRanked history top s

  entry_counts :
      (history : List (AlertHistory N))
      → All (λ c. c.1 ≡ occurrences c.0 history) (symbol_counts [] history)
  unfolding lookup
  entry_counts history =
      All-imp (symbol_counts [] history)
        (λ c e. ap (λ o. or_else o 0) (sym e) ∙ lookup-symbol_counts_all c.0 history)
        (lookup-All_self (symbol_counts [] history) (Distinct-symbol_counts [] history tt))

  IsRanked-top :
      (history : List (AlertHistory N)) (s : String)
      → IsRanked history (map count_of (take 5 (sort_counts (symbol_counts [] history)))) s
  unfolding lookup
  IsRanked-top history s =
      let counts = symbol_counts [] history in
      let total = lookup-symbol_counts_all s history in
      elim (Option-cases (lookup s counts)) [
        | inl e ↦
            let never : 0 ≡ occurrences s history = ap (λ o. or_else o 0) (sym e) ∙ total in
            inr (
              All-map (λ c. occurrences s history ≤ c.count) count_of (take 5 (sort_counts counts))
                (λ c. omega (arith, never)))
        | inr (v, e) ↦
            let exact : v ≡ occurrences s history = ap (λ o. or_else o 0) (sym e) ∙ total in
            elim (first_or_below 5 (s, v) (sort_counts counts) (sort_counts-Falling counts)
              (Memᴰ-sort_counts (s, v) counts (Memᴰ-lookup s v counts e))) [
                | inl i ↦ inl (count_of (s, v), Memᴰ.map count_of i, refl)
                | inr all ↦ inr (
                    All-map_imp (λ c. v ≤ c.1) (λ c. occurrences s history ≤ c.count) count_of
                      (take 5 (sort_counts counts)) (λ c l. omega (arith, exact, l)) all)
              ]
      ]

  AreTop-top :
      (history : List (AlertHistory N)) (s : String)
      → AreTop history (map count_of (take 5 (sort_counts (symbol_counts [] history)))) s
  AreTop-top history s =
      let counts = symbol_counts [] history in
      let top = take 5 (sort_counts counts) in
      (
        omega (arith, length-map count_of top, length-take 5 (sort_counts counts)),
        map-IsFalling top (Falling-take 5 (sort_counts counts) (sort_counts-Falling counts)),
        All-map_imp (λ c. c.1 ≡ occurrences c.0 history)
            (λ c. c.count ≡ occurrences c.symbol history) count_of top (λ c e. e)
            (All-take (λ c. c.1 ≡ occurrences c.0 history) 5 (sort_counts counts)
              (All-sort_counts (λ c. c.1 ≡ occurrences c.0 history) counts (entry_counts history))),
        IsRanked-top history s,
      )

module _ {N : Type 0} (time_of : String → ℕ) where
  -- How many alerts of the history have fired after the moment `ms` before now.
  abbrev pub fired_since : ℕ → ℕ → List (AlertHistory N) → ℕ
  fired_since now ms history = length (filter (λ h. ltb now (time_of h.fired_at + ms)) history)

  total_within-fired_since :
      (now ms : ℕ) (history : List (AlertHistory N))
      → 0 < ms
      → total_within time_of now ms history ≡ fired_since now ms history
  unfolding total_within
  total_within-fired_since now ms [] l = refl
  total_within-fired_since now ms (h ∷ hs) l = ground (arith, total_within-fired_since now ms hs l)

module _ {N : Type 0} (time_of : String → ℕ) (day_of : ℕ → String)
    (on_day : String → String → Bool) where
  count-daily_counts :
      (now : ℕ) (history : List (AlertHistory N)) (i : ℕ)
      → All
          (λ d. d.count ≡ length (filter (λ h. on_day h.fired_at d.date) history))
          (daily_counts day_of on_day now history i)
  unfolding daily_counts
  count-daily_counts now history zero = (refl, tt)
  count-daily_counts now history (suc i) = (refl, count-daily_counts now history i)

  -- The totals of the statistics computed offline are the numbers of alerts that have fired within
  -- one, seven and thirty days; each of the days has the number of its alerts; and of the symbols
  -- there are at most five, each with the number of its alerts, by falling number, and a symbol that
  -- is not among them has no more alerts than any of them.
  pub fallback_stats-AreTop :
      (now : ℕ) (history : List (AlertHistory N)) (s : String)
      → let stats = fallback_stats time_of day_of on_day now history in
        (stats.total_today ≡ fired_since time_of now day_ms history)
        × (stats.total_week ≡ fired_since time_of now (7 * day_ms) history)
        × (stats.total_month ≡ fired_since time_of now (30 * day_ms) history)
        × All
            (λ d. d.count ≡ length (filter (λ h. on_day h.fired_at d.date) history))
            stats.daily_counts
        × AreTop history stats.top_symbols s
  unfolding fallback_stats
  fallback_stats-AreTop now history s = (
    total_within-fired_since time_of now day_ms history (omega arith),
    total_within-fired_since time_of now (7 * day_ms) history (omega arith),
    total_within-fired_since time_of now (30 * day_ms) history (omega arith),
    count-daily_counts now history 13,
    AreTop-top history s,
  )
