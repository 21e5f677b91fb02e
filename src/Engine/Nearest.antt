-- ===== src/Engine/Nearest.antt =====
-- utils/drawingEngine.ts: which point snapToCandle returns.
use mathlib.Core.List.{Memᴰ}
use mathlib.Core.List.Memᴰ
use aiautomation.Common.{
  ◌≡◌, refl, sym, subst, inl, inr, Bool, true, false, Bool-cases, List, [], ◌∷◌, All,
}
use aiautomation.Market.{Bar}
use aiautomation.Engine.{Plane}
use aiautomation.Engine.Snap.{
  least_from, time_diff, price_diff, nearest_candle, nearest_value, snap_to_candle,
}

-- What `<` satisfies on finite numbers.
pub record IsStrictOrder {N : Type 0} (is_less : N → N → Bool) : Type 0 where
  pub irrefl : (a : N) → is_less a a ≡ false
  pub asymm : (a b : N) → is_less a b ≡ true → is_less b a ≡ false
  pub not_less_trans : (a b c : N) → is_less a b ≡ false → is_less b c ≡ false → is_less a c ≡ false

-- `x` is among the elements, and none of them has a smaller difference.
abbrev pub IsNearest {ℓ} :
    {N : Type 0} {A : Type ℓ} → (N → N → Bool) → (A → N) → A → List A → Type ℓ
IsNearest is_less diff_of x xs = Memᴰ x xs × All (λ y. is_less (diff_of y) (diff_of x) ≡ false) xs

module _ {ℓ} {A : Type ℓ} where
  skip_second : {x y : A} (z : A) {xs : List A} → Memᴰ x (y ∷ xs) → Memᴰ x (y ∷ z ∷ xs)
  skip_second z h = elim (Memᴰ.cases_cons h) [
    | inl e ↦ Memᴰ.head e
    | inr m ↦ Memᴰ.tail (Memᴰ.tail m)
  ]

module _ {ℓ} {N : Type 0} {A : Type ℓ} (is_less : N → N → Bool) (order : IsStrictOrder is_less)
    (diff_of : A → N) where
  least_from-IsNearest :
      (best : A) (xs : List A)
      → IsNearest is_less diff_of (least_from is_less diff_of best (diff_of best) xs) (best ∷ xs)
  unfolding least_from
  least_from-IsNearest best [] = (Memᴰ.head refl, (order.irrefl _, tt))
  least_from-IsNearest best (x ∷ xs) = elim (Bool-cases (is_less (diff_of x) (diff_of best))) [
    | inl e ↦
        let (mem, (least, all)) = least_from-IsNearest x xs in
        let step : least_from is_less diff_of best (diff_of best) (x ∷ xs)
            ≡ least_from is_less diff_of x (diff_of x) xs =
          rw e refl in
        subst (λ r. IsNearest is_less diff_of r (best ∷ x ∷ xs)) (sym step)
          (Memᴰ.tail mem, (order.not_less_trans _ _ _ (order.asymm _ _ e) least, (least, all)))
    | inr e ↦
        let (mem, (least, all)) = least_from-IsNearest best xs in
        let step : least_from is_less diff_of best (diff_of best) (x ∷ xs)
            ≡ least_from is_less diff_of best (diff_of best) xs =
          rw e refl in
        subst (λ r. IsNearest is_less diff_of r (best ∷ x ∷ xs)) (sym step)
          (skip_second x mem, (least, (order.not_less_trans _ _ _ e least, all)))
  ]

module _ {N : Type 0} (g : Plane N) (order : IsStrictOrder g.is_less) where
  -- `snapToCandle` of some candles returns the time of a candle that is nearest in time, and the one
  -- of its four values that is nearest in price.
  pub snap_to_candle-IsNearest :
      (price time : N) (first : Bar N) (rest : List (Bar N))
      → (candle : Bar N) × IsNearest g.is_less (time_diff g time) candle (first ∷ rest)
        × ((snap_to_candle g price time (first ∷ rest)).time ≡ g.of_count candle.time)
        × IsNearest g.is_less
            (price_diff g price)
            (snap_to_candle g price time (first ∷ rest)).price
            (candle.open_ ∷ candle.high ∷ candle.low ∷ candle.close ∷ [])
  unfolding snap_to_candle nearest_candle nearest_value
  snap_to_candle-IsNearest price time first rest = (
    nearest_candle g time first rest,
    least_from-IsNearest g.is_less order (time_diff g time) first rest,
    refl,
    least_from-IsNearest g.is_less order (price_diff g price) _ _,
  )
