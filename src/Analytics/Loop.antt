-- ===== src/Analytics/Loop.antt =====
-- The `while` loop of `fetchTradeHistory` in store/analyticsStore.ts, over the index `i`, on fuel.
use aiautomation.Common.{
  ℕ, zero, suc, ◌+◌, ◌-◌, ◌≤◌, ◌<◌, ◌≡◌, refl, ap, ◌∙◌, sym, String, true, false, Bool-cases, inl,
  inr, Option, none, some, List, [], ◌∷◌, ◌++◌, append-nil, append_assoc, length, drop, length-drop,
  ltb, ltb→lt, if◌then◌else◌, arith,
}
use aiautomation.Analytics.{TradeHistoryRow, MatchedTrade, Calc}
use aiautomation.Analytics.Trades.{is_pair, matched_trade, match_rows}

-- `xs[i]`
unfoldable pub nth {ℓ} : {A : Type ℓ} → ℕ → List A → Option A
nth i [] = none
nth zero (x ∷ xs) = some x
nth (suc i) (x ∷ xs) = nth i xs

-- What a test of the loop's condition leads to: the end, an exception, or a pass that leaves an
-- index and the list `matched`.
pub data Turn (N : Type 0) : Type 0 where
  stop fault : Turn N
  pass : ℕ → List (MatchedTrade N) → Turn N

pub data LoopEnd (N : Type 0) : Type 0 where
  out_of_fuel faulted : LoopEnd N
  finished : List (MatchedTrade N) → LoopEnd N

module _ {N : Type 0} (calc : Calc N) (time_of : String → ℕ) where
  -- the body, on `sorted[i]` and `sorted[i + 1]`
  unfoldable pub body :
      ℕ → List (MatchedTrade N) → Option (TradeHistoryRow N) → Option (TradeHistoryRow N) → Turn N
  body i matched (some entry) (some exit) =
      if is_pair entry exit
      then pass (suc (suc i)) (matched ++ matched_trade calc time_of entry exit ∷ [])
      else pass (suc i) matched
  body i matched (some entry) none = fault
  body i matched none exit = fault

  unfoldable pub turn : List (TradeHistoryRow N) → ℕ → List (MatchedTrade N) → Turn N
  turn rows i matched =
      if ltb i (length rows - 1) then body i matched (nth i rows) (nth (suc i) rows) else stop

  unfoldable pub match_loop : ℕ → List (TradeHistoryRow N) → ℕ → List (MatchedTrade N) → LoopEnd N
  match_loop zero rows i matched = out_of_fuel
  match_loop (suc fuel) rows i matched = elim (turn rows i matched) [
    | stop ↦ finished matched
    | fault ↦ faulted
    | pass j more ↦ match_loop fuel rows j more
  ]

module _ {ℓ} {A : Type ℓ} where
  -- Two elements from an index on.
  abbrev Pair : ℕ → List A → Type ℓ
  Pair i xs =
      (x : A) × (y : A) × (rest : List A) × (drop i xs ≡ x ∷ y ∷ rest)
      × (nth i xs ≡ some x)
      × (nth (suc i) xs ≡ some y)
      × (drop (suc i) xs ≡ y ∷ rest)
      × (drop (suc (suc i)) xs ≡ rest)

  next_two : (i : ℕ) (xs : List A) → i + 1 < length xs → Pair i xs
  unfolding nth
  next_two i [] h = absurd (omega arith)
  next_two zero (x ∷ []) h = absurd (omega arith)
  next_two zero (x ∷ y ∷ rest) h = (x, y, rest, refl, refl, refl, refl, refl)
  next_two (suc i) (x ∷ xs) h = next_two i xs (omega arith)

  drop-short : (i : ℕ) (xs : List A) → length xs ≤ i + 1 → length (drop i xs) ≤ 1
  drop-short i xs h = omega (arith, length-drop i xs)

module _ {N : Type 0} (calc : Calc N) (time_of : String → ℕ) where
  turn-stop :
      (rows : List (TradeHistoryRow N)) (i : ℕ) (matched : List (MatchedTrade N))
      → length rows ≤ i + 1
      → turn calc time_of rows i matched ≡ stop
  unfolding turn
  turn-stop rows i matched h =
      let e : ltb i (length rows - 1) ≡ false = ground arith in rw (e, turn) refl

  turn-body :
      (rows : List (TradeHistoryRow N)) (i : ℕ) (matched : List (MatchedTrade N))
      → i + 1 < length rows
      → turn calc time_of rows i matched
        ≡ body calc time_of i matched (nth i rows) (nth (suc i) rows)
  unfolding turn
  turn-body rows i matched h =
      let e : ltb i (length rows - 1) ≡ true = ground arith in rw (e, turn) refl

  match_rows_short :
      (rows : List (TradeHistoryRow N)) → length rows ≤ 1 → match_rows calc time_of rows ≡ []
  unfolding match_rows
  match_rows_short [] h = refl
  match_rows_short (x ∷ []) h = refl
  match_rows_short (x ∷ y ∷ rows) h = absurd (omega arith)

  match_rows-pair :
      (x y : TradeHistoryRow N) (rest : List (TradeHistoryRow N))
      → is_pair x y ≡ true
      → match_rows calc time_of (x ∷ y ∷ rest)
        ≡ matched_trade calc time_of x y ∷ match_rows calc time_of rest
  unfolding match_rows
  match_rows-pair x y rest p = rw (p, match_rows) refl

  match_rows-skip :
      (x y : TradeHistoryRow N) (rest : List (TradeHistoryRow N))
      → is_pair x y ≡ false
      → match_rows calc time_of (x ∷ y ∷ rest) ≡ match_rows calc time_of (y ∷ rest)
  unfolding match_rows
  match_rows-skip x y rest p = rw (p, match_rows) refl

  match_loop-stop :
      (fuel : ℕ) (rows : List (TradeHistoryRow N)) (i : ℕ) (matched : List (MatchedTrade N))
      → length rows ≤ i + 1
      → match_loop calc time_of (suc fuel) rows i matched
        ≡ finished (matched ++ match_rows calc time_of (drop i rows))
  unfolding match_loop
  match_loop-stop fuel rows i matched h =
      rw
        (
          turn-stop rows i matched h,
          match_rows_short (drop i rows) (drop-short i rows h),
          append-nil matched,
          match_loop,
        )
        refl

  -- From index `i` on, the loop appends the pairs of the rows that are left.
  match_loop-drop :
      (fuel : ℕ) (rows : List (TradeHistoryRow N)) (i : ℕ) (matched : List (MatchedTrade N))
      → length rows ≤ i + fuel
      → match_loop calc time_of (suc fuel) rows i matched
        ≡ finished (matched ++ match_rows calc time_of (drop i rows))
  unfolding match_loop body
  match_loop-drop zero rows i matched h = match_loop-stop zero rows i matched (omega arith)
  match_loop-drop (suc fuel) rows i matched h = elim (Bool-cases (ltb (i + 1) (length rows))) [
    | inl e ↦
        let more = ltb→lt _ _ e in
        let (x, y, rest, d, n, m, f, g) = next_two i rows more in
        elim (Bool-cases (is_pair x y)) [
          | inl p ↦
              let trade = matched_trade calc time_of x y in
              let later =
                match_loop-drop fuel rows (suc (suc i)) (matched ++ trade ∷ []) (omega arith) in
              let here =
                ap (match_rows calc time_of) d
                ∙ match_rows-pair x y rest p
                ∙ ap (λ t. trade ∷ match_rows calc time_of t) (sym g) in
              rw (turn-body rows i matched more, n, m, p, match_loop, body)
                (later
                  ∙ ap finished
                      (append_assoc matched (trade ∷ []) _ ∙ ap (λ t. matched ++ t) (sym here)))
          | inr p ↦
              let later = match_loop-drop fuel rows (suc i) matched (omega arith) in
              let here =
                ap (match_rows calc time_of) d
                ∙ match_rows-skip x y rest p
                ∙ ap (match_rows calc time_of) (sym f) in
              rw (turn-body rows i matched more, n, m, p, match_loop, body)
                (later ∙ ap (λ t. finished (matched ++ t)) (sym here))
        ]
    | inr e ↦ match_loop-stop (suc fuel) rows i matched (ground arith)
  ]

  -- `length sorted + 1` tests of its condition end the `while` loop, with no read past the rows,
  -- and it has pushed a trade for each purchase with a sale right behind it, the pairs of `match_rows`.
  pub match_loop-finished :
      (rows : List (TradeHistoryRow N))
      → match_loop calc time_of (suc (length rows)) rows 0 []
        ≡ finished (match_rows calc time_of rows)
  match_loop-finished rows = match_loop-drop (length rows) rows 0 [] (omega arith)
