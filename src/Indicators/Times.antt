-- ===== src/Indicators/Times.antt =====
-- utils/indicators.ts: at which times calcEMA and calcMACD have points.
use aiautomation.Common.{
  ℕ, zero, suc, ◌+◌, ◌≤◌, ◌<◌, ◌≡◌, refl, ap, ◌∙◌, sym, subst, inl, inr, Bool-cases, Bool, true,
  false, Option, some, is_some, List, [], ◌∷◌, map, All, All-imp, All-drop, length, drop, filter,
  ltb, ltb→lt, eqb, if◌then◌else◌, arith,
}
use aiautomation.Market.{Bar}
use aiautomation.Indicators.{Reals, LinePoint, MacdResult}
use aiautomation.Indicators.Averages.{ema_loop, ema_from, calc_ema, smooth}
use aiautomation.Indicators.Sums.{drop-cases}
use aiautomation.Indicators.Oscillators.{
  value_at, differences, signal_loop, signal_from, signal_line, macd_of, calc_macd,
}

abbrev pub bar_times : {N : Type 0} → List (Bar N) → List ℕ
bar_times bars = map (λ b. b.time) bars

abbrev pub times_of : {N : Type 0} → List (LinePoint N) → List ℕ
times_of ps = map (λ p. p.time) ps

-- Each time is later than those before it.
abbrev pub IsRising : List ℕ → Type 0
IsRising [] = Unit
IsRising (t ∷ ts) = All (λ u. t < u) ts × IsRising ts

abbrev has_time : ℕ → List ℕ → Bool
has_time t [] = false
has_time t (u ∷ us) = let rest = has_time t us in if rest then true else eqb u t

drop-map {ℓ κ} :
    {A : Type ℓ} {B : Type κ} (f : A → B) (n : ℕ) (xs : List A)
    → map f (drop n xs) ≡ drop n (map f xs)
drop-map f zero xs = refl
drop-map f (suc n) [] = refl
drop-map f (suc n) (x ∷ xs) = drop-map f n xs

has_time_later : (t : ℕ) (ts : List ℕ) → All (λ u. t < u) ts → has_time t ts ≡ false
has_time_later t [] h = refl
has_time_later t (u ∷ ts) h = rw (has_time_later t ts h.1) (ground (arith, h.0))

has_time_cons : (t u : ℕ) (ts : List ℕ) → has_time u ts ≡ true → has_time u (t ∷ ts) ≡ true
has_time_cons t u ts h = rw h refl

has_time_self : (ts : List ℕ) → All (λ t. has_time t ts ≡ true) ts
has_time_self [] = tt
has_time_self (t ∷ ts) = (ground (arith), All-imp ts (λ u. has_time_cons t u ts) (has_time_self ts))

filter_unchanged {ℓ} :
    {A : Type ℓ} (p : A → Bool) (xs : List A) → All (λ x. p x ≡ true) xs → filter p xs ≡ xs
filter_unchanged p [] h = refl
filter_unchanged p (x ∷ xs) h = rw h.0 (ap (λ t. x ∷ t) (filter_unchanged p xs h.1))

-- Of rising times, those that a later part has are that part.
filter-has_time :
    (k : ℕ) (ts : List ℕ) → IsRising ts → filter (λ t. has_time t (drop k ts)) ts ≡ drop k ts
filter-has_time zero ts h = filter_unchanged _ ts (has_time_self ts)
filter-has_time (suc k) [] h = refl
filter-has_time (suc k) (t ∷ ts) h =
    rw (has_time_later t (drop k ts) (All-drop _ k ts h.0)) (filter-has_time k ts h.1)

drop-IsRising : (k : ℕ) (ts : List ℕ) → IsRising ts → IsRising (drop k ts)
drop-IsRising zero ts h = h
drop-IsRising (suc k) [] h = h
drop-IsRising (suc k) (t ∷ ts) h = drop-IsRising k ts h.1

drop_nil {ℓ} : {A : Type ℓ} (n : ℕ) → drop {A = A} n [] ≡ []
drop_nil zero = refl
drop_nil (suc n) = refl

pub drop_add {ℓ} : {A : Type ℓ} (a b : ℕ) (xs : List A) → drop (a + b) xs ≡ drop b (drop a xs)
drop_add zero b xs = ap (λ n. drop n xs) (omega arith)
drop_add (suc a) b [] = drop_nil (suc a + b) ∙ sym (drop_nil b)
drop_add (suc a) b (x ∷ xs) =
    ap (λ n. drop n (x ∷ xs)) (let e : suc a + b ≡ suc (a + b) = omega arith in e) ∙ drop_add a b xs

drop_short {ℓ} : {A : Type ℓ} (n : ℕ) (xs : List A) → length xs ≤ n → drop n xs ≡ []
drop_short zero [] h = refl
drop_short zero (x ∷ xs) h = absurd (omega arith)
drop_short (suc n) [] h = refl
drop_short (suc n) (x ∷ xs) h = drop_short n xs (omega arith)

abbrev HasTimes : {N : Type 0} → Option (List (LinePoint N)) → List ℕ → Type 0
HasTimes {N = N} o ts = (ps : List (LinePoint N)) × (o ≡ some ps) × (times_of ps ≡ ts)

-- The times of the three lines of a result.
abbrev pub HasLines : {N : Type 0} → Option (MacdResult N) → List ℕ → List ℕ → Type 0
HasLines {N = N} o line signal =
    (m : MacdResult N) × (o ≡ some m)
    × (times_of m.macd ≡ line)
    × (times_of m.signal ≡ signal)
    × (times_of m.histogram ≡ signal)

module _ {N : Type 0} (r : Reals N) where
  times-ema_loop : (k ema : N) (bs : List (Bar N)) → times_of (ema_loop r k ema bs) ≡ bar_times bs
  unfolding ema_loop
  times-ema_loop k ema [] = refl
  times-ema_loop k ema (b ∷ bs) =
      ap (λ ts. b.time ∷ ts) (times-ema_loop k (smooth r k ema b.close) bs)

  -- `calcEMA` has a point at each bar from `period` bars on.
  times-calc_ema :
      (q : ℕ) (bars : List (Bar N)) → HasTimes (calc_ema r bars (suc q)) (drop q (bar_times bars))
  unfolding calc_ema ema_from
  times-calc_ema q bars = elim (Bool-cases (ltb (length bars) (suc q))) [
    | inl e ↦
        let short : length bars ≤ q = omega (arith, ltb→lt _ _ e) in
        rw (e, sym (drop-map (λ b. b.time) q bars), drop_short q bars short) ([], refl, refl)
    | inr e ↦ elim (drop-cases q bars) [
      | inl h ↦ absurd (let gt : q < length bars = ground (arith) in omega (arith, h.1))
      | inr (b, rest, d, f, t, l) ↦
          rw (e, sym (drop-map (λ b. b.time) q bars), d)
            (_, refl, ap (λ ts. b.time ∷ ts) (times-ema_loop _ _ rest))
    ]
  ]

  is_some-value_at :
      (t : ℕ) (ps : List (LinePoint N)) → is_some (value_at t ps) ≡ has_time t (times_of ps)
  unfolding value_at
  is_some-value_at t [] = refl
  is_some-value_at t (p ∷ ps) = ground (arith, is_some-value_at t ps)

  -- The differences stand at the times that both lines have.
  times-differences :
      (s m : List (LinePoint N))
      → times_of (differences r s m) ≡ filter (λ t. has_time t (times_of s)) (times_of m)
  unfolding differences
  times-differences s [] = refl
  times-differences s (p ∷ m) = elim (Bool-cases (has_time p.time (times_of s))) [
    | inl e ↦ rw (is_some-value_at p.time s ∙ e, e) (ap (λ ts. p.time ∷ ts) (times-differences s m))
    | inr e ↦ rw (is_some-value_at p.time s ∙ e, e) (times-differences s m)
  ]

  -- Over rising times, the differences with a line of the last times stand at those times.
  times-differences_late :
      (k : ℕ) (s m : List (LinePoint N))
      → IsRising (times_of m)
      → times_of s ≡ drop k (times_of m)
      → times_of (differences r s m) ≡ times_of s
  times-differences_late k s m h e =
      times-differences s m
      ∙ ap (λ ts. filter (λ t. has_time t ts) (times_of m)) e
      ∙ filter-has_time k (times_of m) h
      ∙ sym e

  times-signal_loop :
      (k ema : N) (ps : List (LinePoint N)) → times_of (signal_loop r k ema ps) ≡ times_of ps
  unfolding signal_loop
  times-signal_loop k ema [] = refl
  times-signal_loop k ema (p ∷ ps) =
      ap (λ ts. p.time ∷ ts) (times-signal_loop k (smooth r k ema p.value) ps)

  times-signal_line :
      (g : ℕ) (line : List (LinePoint N))
      → g < length line
      → HasTimes (signal_line r line (suc g)) (drop g (times_of line))
  unfolding signal_line signal_from
  times-signal_line g line h = elim (drop-cases g line) [
    | inl k ↦ absurd (omega (arith, k.1))
    | inr (p, rest, d, f, t, l) ↦
        rw (sym (drop-map (λ p. p.time) g line), d)
          (_, refl, ap (λ ts. p.time ∷ ts) (times-signal_loop _ _ rest))
  ]

  macd_of-HasLines :
      (g : ℕ) (line : List (LinePoint N))
      → IsRising (times_of line)
      → HasLines (macd_of r line (suc g)) (times_of line) (drop g (times_of line))
  unfolding macd_of
  macd_of-HasLines g line h = elim (Bool-cases (ltb (length line) (suc g))) [
    | inl e ↦
        let short : length line ≤ g = omega (arith, ltb→lt _ _ e) in
        rw (e, sym (drop-map (λ p. p.time) g line), drop_short g line short)
          (_, refl, refl, refl, refl)
    | inr e ↦
        let (ps, f, t) = times-signal_line g line (ground arith) in
        rw (e, f) (_, refl, refl, t, times-differences_late g ps line h t ∙ t)
  ]

  -- Over bars of rising times, with the slow period `d` longer than the fast one, `calcMACD` returns
  -- a result: its line has a point at each bar from the slow period on, and its signal and its
  -- histogram have one at each of those points from the signal's period on.
  pub calc_macd-HasLines :
      (q d g : ℕ) (bars : List (Bar N))
      → IsRising (bar_times bars)
      → HasLines
          (calc_macd r bars (suc q) (suc (q + d)) (suc g))
          (drop (q + d) (bar_times bars))
          (drop g (drop (q + d) (bar_times bars)))
  unfolding calc_macd
  calc_macd-HasLines q d g bars h =
      let (fast, ef, tf) = times-calc_ema q bars in
      let (slow, es, ts) = times-calc_ema (q + d) bars in
      let late : times_of slow ≡ drop d (times_of fast) =
        ts ∙ drop_add q d (bar_times bars) ∙ ap (drop d) (sym tf) in
      let line =
        times-differences_late d slow fast (rw tf (drop-IsRising q (bar_times bars) h)) late ∙ ts in
      rw (ef, es)
        (subst (λ us. HasLines (macd_of r (differences r slow fast) (suc g)) us (drop g us)) line
          (macd_of-HasLines g (differences r slow fast)
            (rw line (drop-IsRising (q + d) (bar_times bars) h))))
