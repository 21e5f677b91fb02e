-- ===== src/Market/Bars.antt =====
-- The bars that live quotes make in store/marketStore.ts.
use aiautomation.Common.{
  ℕ, suc, zero, ◌≤◌, ◌<◌, String, ◌≡◌, refl, sym, ap, ◌∙◌, subst, true, false, Option, none, some,
  List, [], ◌∷◌, ◌++◌, length, take_last, drop, drop_last, get_last?, All, All-append, All-snoc,
  All-imp, All-insert, lookup-All, lookup, Bool-cases, Option-cases, inl, inr, eqb, ltb, leb, arith,
  length-append, length-take_last, get_last?-snoc, get_last?-drop_last, take_last-snoc,
  length-drop_last, length_pos_of_get_last?, some_inj, ltb→lt, leb→le, ◌⊎◌, ◌-◌,
}
use aiautomation.Market.{Bar, Num, MarketState, MarketPhase, Source}
use aiautomation.Market.Quotes.{
  max_bars, tick_time, bar_time, updated_last, next_bar, patch_last, patch_series, write_series,
  apply_live_quote,
}

module _ {N : Type 0} where
  abbrev pub IsOrdered : List (Bar N) → Type 0
  IsOrdered [] = Unit
  IsOrdered (b ∷ bs) = All (λ c. b.time < c.time) bs × IsOrdered bs

  -- A series as the chart needs it: its times rise from bar to bar, and it is not too long.
  pub record IsSeries (bs : List (Bar N)) : Type 0 where
    pub ordered : IsOrdered bs
    pub bounded : length bs ≤ max_bars

  IsOrdered-drop : (n : ℕ) (bs : List (Bar N)) → IsOrdered bs → IsOrdered (drop n bs)
  IsOrdered-drop zero bs h = h
  IsOrdered-drop (suc n) [] h = h
  IsOrdered-drop (suc n) (b ∷ bs) h = IsOrdered-drop n bs h.1

  IsOrdered-snoc :
      (bs : List (Bar N)) (b : Bar N)
      → IsOrdered bs
      → All (λ c. c.time < b.time) bs
      → IsOrdered (bs ++ b ∷ [])
  IsOrdered-snoc [] b h k = (tt, tt)
  IsOrdered-snoc (c ∷ bs) b h k =
      (All-append (λ d. c.time < d.time) bs (b ∷ []) h.0 (k.0, tt), IsOrdered-snoc bs b h.1 k.1)

  -- The bars before the last one.
  IsOrdered-init :
      (bs : List (Bar N)) (b : Bar N)
      → IsOrdered (bs ++ b ∷ [])
      → IsOrdered bs × All (λ c. c.time < b.time) bs
  IsOrdered-init [] b h = (tt, tt)
  IsOrdered-init (c ∷ bs) b h =
      let (all, last) = All-snoc (λ d. c.time < d.time) bs b h.0 in
      let (ordered, before) = IsOrdered-init bs b h.1 in ((all, ordered), (last, before))

  IsOrdered-last :
      (bs : List (Bar N)) {b : Bar N}
      → IsOrdered bs
      → get_last? bs ≡ some b
      → IsOrdered (drop_last bs) × All (λ c. c.time < b.time) (drop_last bs)
  IsOrdered-last bs {b} h e =
      IsOrdered-init (drop_last bs) b (subst IsOrdered (sym (get_last?-drop_last bs e)) h)

  All-until :
      (bs : List (Bar N)) {b : Bar N} (t : ℕ)
      → IsOrdered bs
      → get_last? bs ≡ some b
      → b.time < t
      → All (λ c. c.time < t) bs
  All-until bs {b} t h e l = subst (All (λ c. c.time < t)) (get_last?-drop_last bs e) (
      All-append (λ c. c.time < t) (drop_last bs) (b ∷ [])
        (All-imp (drop_last bs) (λ c k. omega arith) (IsOrdered-last bs h e).1) (l, tt))

module _ {N : Type 0} where
  -- A series ends in a bar that starts at `t` and closes at `price`.
  abbrev pub EndsIn : ℕ → N → List (Bar N) → Type 0
  EndsIn t price bs = (b : Bar N) × (get_last? bs ≡ some b) × (b.time ≡ t) × (b.close ≡ price)

  -- There is a new series, and it does.
  abbrev pub IsPatched : ℕ → N → Option (List (Bar N)) → Type 0
  IsPatched t price r = (cs : List (Bar N)) × (r ≡ some cs) × EndsIn t price cs

leb_zero : (t : ℕ) → 0 < t → leb t 0 ≡ false
leb_zero t h = ground arith

eqb→eq : (a b : ℕ) → eqb a b ≡ true → a ≡ b
eqb→eq a b h = ground arith

newer : (a b : ℕ) → a ≤ b → eqb a b ≡ false → ltb a b ≡ true
newer a b h k = ground arith

older : (a b : ℕ) → leb a b ≡ false → b < a
older a b h = ground arith

module _ {N : Type 0} (num : Num N) where
  patch_last_old :
      (t : ℕ) (price : N) (bs : List (Bar N)) (b : Bar N)
      → t < b.time
      → patch_last num t price bs b ≡ none
  unfolding patch_last
  patch_last_old t price bs b h = ground arith

  patch_last-IsSeries :
      (t : ℕ) (price : N) (bs : List (Bar N)) (b : Bar N) {cs : List (Bar N)}
      → IsSeries bs
      → get_last? bs ≡ some b
      → patch_last num t price bs b ≡ some cs
      → IsSeries cs
  unfolding patch_last
  patch_last-IsSeries t price bs b {cs} h e p = elim (Bool-cases (leb t 0)) [
    | inl z ↦ cc (rw z at p)
    | inr z ↦ elim (Bool-cases (eqb b.time t)) [
      | inl s ↦
          let (before, all) = IsOrdered-last bs h.ordered e in
          let same : drop_last bs ++ updated_last num price b ∷ [] ≡ cs =
            some_inj (rw (z, s) at p) in
          subst IsSeries same (record {
            ordered = IsOrdered-snoc (drop_last bs) (updated_last num price b) before all;
            bounded = omega (
              arith,
              h.bounded,
              length-append (drop_last bs) (updated_last num price b ∷ []),
              length-drop_last bs,
              length_pos_of_get_last? bs e,
            );
          })
      | inr s ↦ elim (Bool-cases (ltb b.time t)) [
        | inl l ↦
            let next = next_bar num t price b in
            let same : take_last max_bars (bs ++ next ∷ []) ≡ cs = some_inj (rw (z, s, l) at p) in
            subst IsSeries same (record {
              ordered = IsOrdered-drop _ (bs ++ next ∷ []) (
                  IsOrdered-snoc bs next h.ordered
                    (All-until bs t h.ordered e (ltb→lt b.time t l)));
              bounded = omega (arith, length-take_last max_bars (bs ++ next ∷ []));
            })
        | inr l ↦ cc (rw (z, s, l) at p)
      ]
    ]
  ]

  patch_series-IsSeries :
      (t : ℕ) (price : N) (bs : List (Bar N)) {cs : List (Bar N)}
      → IsSeries bs
      → patch_series num t price (some bs) ≡ some cs
      → IsSeries cs
  unfolding patch_series
  patch_series-IsSeries t price bs h p = elim (Option-cases (get_last? bs)) [
    | inl e ↦ cc (rw (e, patch_series) at p)
    | inr (b, e) ↦ patch_last-IsSeries t price bs b h e (rw (e, patch_series) at p)
  ]

  patch_series-none : (t : ℕ) (price : N) → patch_series num t price none ≡ none
  unfolding patch_series
  patch_series-none t price = refl

  -- What a tick does to the series of one kind: the chart's, or those it is compared with.
  patched-IsSeries :
      (symbol : String) (t : ℕ) (price : N) (m : List (String × List (Bar N)))
      → All (λ e. IsSeries e.1) m
      → All (λ e. IsSeries e.1) (write_series symbol (patch_series num t price (lookup symbol m)) m)
  patched-IsSeries symbol t price m h = elim (Option-cases (lookup symbol m)) [
    | inl e ↦ rw (e, patch_series-none t price) h
    | inr (bs, e) ↦ elim (Option-cases (patch_series num t price (some bs))) [
      | inl p ↦ rw (e, p) h
      | inr (cs, p) ↦
          rw (e, p)
            (All-insert IsSeries symbol cs m
              (patch_series-IsSeries t price bs (lookup-All IsSeries symbol m h e) p) h)
    ]
  ]

  -- Whatever a tick says, every series keeps rising in time from bar to bar and stays within 5000
  -- bars, on the chart and in the comparison.
  pub apply_live_quote-IsSeries :
      (iso : ℕ → String) (now : ℕ) (symbol : String) (price : N) (time : Option ℕ) (bar_seconds : ℕ)
      (source : Source) (stale : N) (phase : Option MarketPhase) (s : MarketState N)
      → All (λ e. IsSeries e.1) s.bars
      → All (λ e. IsSeries e.1) s.comp_bars
      → let after =
          apply_live_quote num iso now symbol price time bar_seconds source stale phase s in
        All (λ e. IsSeries e.1) after.bars × All (λ e. IsSeries e.1) after.comp_bars
  unfolding apply_live_quote
  apply_live_quote-IsSeries iso now symbol price time bar_seconds source stale phase s h k =
      let t = bar_time (tick_time now time) bar_seconds in
      (patched-IsSeries symbol t price s.bars h, patched-IsSeries symbol t price s.comp_bars k)

  patch_last-IsPatched :
      (t : ℕ) (price : N) (bs : List (Bar N)) (b : Bar N)
      → 0 < t
      → b.time ≤ t
      → IsPatched t price (patch_last num t price bs b)
  unfolding patch_last
  patch_last-IsPatched t price bs b z l = elim (Bool-cases (eqb b.time t)) [
    | inl s ↦
        let u = updated_last num price b in
        (
          drop_last bs ++ u ∷ [],
          rw (leb_zero t z, s) refl,
          (u, get_last?-snoc (drop_last bs) u, eqb→eq b.time t s, refl),
        )
    | inr s ↦
        let next = next_bar num t price b in
        (
          take_last max_bars (bs ++ next ∷ []),
          rw (leb_zero t z, s, newer b.time t l s) refl,
          (
            next,
            ap get_last? (take_last-snoc 4999 bs next)
                ∙ get_last?-snoc (drop (length bs - 4999) bs) next,
            refl,
            refl,
          ),
        )
  ]

  -- A tick that is not older than the last bar of a series shows in it: the series then ends in the
  -- bar of the tick's time, which closes at the tick's price. An older tick leaves the series.
  pub patch_series-IsPatched :
      (t : ℕ) (price : N) (bs : List (Bar N)) {b : Bar N}
      → get_last? bs ≡ some b
      → 0 < t
      → ((b.time ≤ t) × IsPatched t price (patch_series num t price (some bs)))
        ⊎ ((t < b.time) × (patch_series num t price (some bs) ≡ none))
  unfolding patch_series
  patch_series-IsPatched t price bs {b} e z = elim (Bool-cases (leb b.time t)) [
    | inl l ↦ inl (
      leb→le b.time t l,
      rw (e, patch_series) (patch_last-IsPatched t price bs b z (leb→le b.time t l)),
    )
    | inr l ↦
        inr
          (older b.time t l, rw (e, patch_series) (patch_last_old t price bs b (older b.time t l)))
  ]
