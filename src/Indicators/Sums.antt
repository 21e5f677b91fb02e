-- ===== src/Indicators/Sums.antt =====
-- utils/indicators.ts: what the sums of a window satisfy where addition and subtraction are exact,
-- and the windows of a list.
use aiautomation.Common.{
  ℕ, zero, suc, ◌≤◌, ◌<◌, ◌≡◌, refl, ap, ◌∙◌, sym, ◌⊎◌, inl, inr, List, [], ◌∷◌, ◌++◌, length, take,
  drop, ltb, if◌then◌else◌, arith,
}
use aiautomation.Market.{Bar}
use aiautomation.Indicators.{Reals}
use aiautomation.Indicators.Averages.{add_closes}

-- Addition and subtraction without rounding.
pub record IsExact {N : Type 0} (r : Reals N) : Type 0 where
  pub add_assoc : (a b c : N) → r.add (r.add a b) c ≡ r.add a (r.add b c)
  pub add_comm : (a b : N) → r.add a b ≡ r.add b a
  pub add_sub : (a b : N) → r.add a (r.sub b a) ≡ b

module _ {N : Type 0} (r : Reals N) (exact : IsExact r) where
  add_last : (a b c : N) → r.add (r.add a b) c ≡ r.add (r.add a c) b
  add_last a b c =
      exact.add_assoc a b c ∙ ap (r.add a) (exact.add_comm b c) ∙ sym (exact.add_assoc a c b)

  add_closes-add :
      (sum c : N) (w : List (Bar N)) → add_closes r (r.add sum c) w ≡ r.add (add_closes r sum w) c
  unfolding add_closes
  add_closes-add sum c [] = refl
  add_closes-add sum c (b ∷ w) =
      ap (λ s. add_closes r s w) (add_last sum c b.close) ∙ add_closes-add (r.add sum b.close) c w

  add_closes-snoc :
      (sum : N) (w : List (Bar N)) (b : Bar N)
      → add_closes r sum (w ++ b ∷ []) ≡ r.add (add_closes r sum w) b.close
  unfolding add_closes
  add_closes-snoc sum [] b = refl
  add_closes-snoc sum (c ∷ w) b = add_closes-snoc (r.add sum c.close) w b

  -- The sum of the next window: the bar `o` leaves and the bar `b` enters.
  pub add_closes_slide :
      (sum : N) (o b : Bar N) (w : List (Bar N))
      → r.add (add_closes r sum (o ∷ w)) (r.sub b.close o.close) ≡ add_closes r sum (w ++ b ∷ [])
  unfolding add_closes
  add_closes_slide sum o b w =
      ap (λ s. r.add s (r.sub b.close o.close)) (add_closes-add sum o.close w)
      ∙ exact.add_assoc (add_closes r sum w) o.close (r.sub b.close o.close)
      ∙ ap (r.add (add_closes r sum w)) (exact.add_sub o.close b.close)
      ∙ sym (add_closes-snoc sum w b)

module _ {ℓ} {A : Type ℓ} where
  -- The slices of `period` elements, the first one first.
  unfoldable pub windows : ℕ → List A → List (List A)
  windows period [] = []
  windows period (x ∷ xs) =
      let rest = windows period xs in
      if ltb (length (x ∷ xs)) period then [] else take period (x ∷ xs) ∷ rest

  pub windows_short : (n : ℕ) (xs : List A) → length xs < n → windows n xs ≡ []
  unfolding windows
  windows_short n [] h = refl
  windows_short n (x ∷ xs) h = ground arith

  pub windows_long :
      (n : ℕ) (x : A) (xs : List A)
      → n ≤ length (x ∷ xs)
      → windows n (x ∷ xs) ≡ take n (x ∷ xs) ∷ windows n xs
  unfolding windows
  windows_long n x xs h = ground arith

  -- What an index past the first `n` elements finds.
  abbrev pub Next : ℕ → List A → Type ℓ
  Next n xs =
      (x : A) × (rest : List A) × (drop n xs ≡ x ∷ rest)
      × (drop (suc n) xs ≡ rest)
      × (take (suc n) xs ≡ take n xs ++ x ∷ [])
      × (n < length xs)

  pub drop-cases : (n : ℕ) (xs : List A) → ((drop n xs ≡ []) × (length xs ≤ n)) ⊎ Next n xs
  drop-cases zero [] = inl (refl, omega arith)
  drop-cases (suc n) [] = inl (refl, omega arith)
  drop-cases zero (x ∷ xs) = inr (x, xs, refl, refl, refl, omega arith)
  drop-cases (suc n) (x ∷ xs) = elim (drop-cases n xs) [
    | inl h ↦ inl (h.0, omega (arith, h.1))
    | inr (y, rest, d, e, t, l) ↦ inr (y, rest, d, e, ap (λ w. x ∷ w) t, omega arith)
  ]
