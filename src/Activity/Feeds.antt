-- ===== src/Activity/Feeds.antt =====
-- The bounds of the lists of recent events, and what the activity feed leaves out.
use mathlib.Core.List.{Memᴰ}
use aiautomation.Common.{
  ℕ, zero, suc, ◌+◌, ◌≤◌, ◌<◌, String, eq_iff, ◌≡◌, ◌≢◌, refl, ◌⊎◌, ◌==◌, ne_of_test, Bool, true,
  false, List, [], ◌∷◌, any, take, length, length-take, All, All-imp, All-take, ltb, arith,
  Bool-cases, inl, inr,
}
use aiautomation.Activity.{ActivityEvent, distance, is_repeat, push_activity, push_all}

any_some :
    {A : Type 0} (p : A → Bool) (xs : List A) → any p xs ≡ true → (x : A) × Memᴰ x xs × (p x ≡ true)
any_some p [] h = cc
any_some p (x ∷ xs) h = elim (Bool-cases (p x)) [
  | inl e ↦ (x, Memᴰ.head refl, e)
  | inr e ↦ let (y, m, q) = any_some p xs (ground arith) in (y, Memᴰ.tail m, q)
]

any_none : {A : Type 0} (p : A → Bool) (xs : List A) → any p xs ≡ false → All (λ x. p x ≡ false) xs
any_none p [] h = tt
any_none p (x ∷ xs) h = (ground arith, any_none p xs (ground arith))

module _ {N : Type 0} (time_of : String → ℕ) where
  -- Two events have different symbols or rules, or lie five seconds apart, in either order.
  abbrev pub IsApart : ActivityEvent N → ActivityEvent N → Type 0
  IsApart e a =
      (a.symbol ≢ e.symbol)
      ⊎ ((a.rule_name ≢ e.rule_name)
          ⊎ ((time_of a.timestamp + 5000 ≤ time_of e.timestamp)
              ⊎ (time_of e.timestamp + 5000 ≤ time_of a.timestamp)))

  -- An event stands for another of its symbol and rule, less than five seconds from it.
  abbrev pub IsRecord : ActivityEvent N → ActivityEvent N → Type 0
  IsRecord e a =
      (a.symbol ≡ e.symbol)
      × (a.rule_name ≡ e.rule_name)
      × (time_of a.timestamp < time_of e.timestamp + 5000)
      × (time_of e.timestamp < time_of a.timestamp + 5000)

  is_repeat-IsRecord : (e a : ActivityEvent N) → is_repeat time_of e a ≡ true → IsRecord e a
  is_repeat-IsRecord e a h = (
    (eq_iff a.symbol e.symbol).0 (ground arith),
    (eq_iff a.rule_name e.rule_name).0 (ground arith),
    ground arith,
    ground arith,
  )

  is_repeat-IsApart : (e a : ActivityEvent N) → is_repeat time_of e a ≡ false → IsApart e a
  is_repeat-IsApart e a h = elim (Bool-cases (a.symbol == e.symbol)) [
    | inr s ↦ inl (ne_of_test a.symbol e.symbol s)
    | inl s ↦ elim (Bool-cases (a.rule_name == e.rule_name)) [
      | inr r ↦ inr (inl (ne_of_test a.rule_name e.rule_name r))
      | inl r ↦
          let far : ltb (distance (time_of a.timestamp) (time_of e.timestamp)) 5000 ≡ false =
            ground arith in
          elim (Bool-cases (ltb (time_of a.timestamp) (time_of e.timestamp))) [
            | inl b ↦ inr (inr (inl (ground arith)))
            | inr b ↦ inr (inr (inr (ground arith)))
          ]
    ]
  ]

  -- No event of the feed repeats another one of it.
  abbrev pub IsQuiet : List (ActivityEvent N) → Type 0
  IsQuiet [] = Unit
  IsQuiet (e ∷ es) = All (IsApart e) es × IsQuiet es

  IsQuiet-take : (n : ℕ) (es : List (ActivityEvent N)) → IsQuiet es → IsQuiet (take n es)
  IsQuiet-take zero es h = tt
  IsQuiet-take (suc n) [] h = tt
  IsQuiet-take (suc n) (e ∷ es) h = (All-take (IsApart e) n es h.0, IsQuiet-take n es h.1)

  abbrev pub IsFeed : List (ActivityEvent N) → Type 0
  IsFeed feed = IsQuiet feed × (length feed ≤ 20)

  pub push_activity-IsFeed :
      (e : ActivityEvent N) (feed : List (ActivityEvent N))
      → IsFeed feed
      → IsFeed (push_activity time_of e feed)
  unfolding push_activity
  push_activity-IsFeed e feed h = elim (Bool-cases (any (is_repeat time_of e) feed)) [
    | inl r ↦ rw r h
    | inr r ↦
        let apart = All-imp feed (is_repeat-IsApart e) (any_none (is_repeat time_of e) feed r) in
        rw r (IsQuiet-take 20 (e ∷ feed) (apart, h.0), omega (arith, length-take 20 (e ∷ feed)))
  ]

  push_activity-IsRecord :
      (e : ActivityEvent N) (feed : List (ActivityEvent N))
      → (a : ActivityEvent N) × Memᴰ a (push_activity time_of e feed) × IsRecord e a
  unfolding push_activity
  push_activity-IsRecord e feed = elim (Bool-cases (any (is_repeat time_of e) feed)) [
    | inl r ↦
        let (a, m, q) = any_some (is_repeat time_of e) feed r in
        rw r (a, m, is_repeat-IsRecord e a q)
    | inr r ↦ rw r (e, Memᴰ.head refl, (refl, refl, omega arith, omega arith))
  ]

  push_all-IsFeed :
      (es feed : List (ActivityEvent N)) → IsFeed feed → IsFeed (push_all time_of es feed)
  unfolding push_all
  push_all-IsFeed [] feed h = h
  push_all-IsFeed (e ∷ es) feed h =
      push_all-IsFeed es (push_activity time_of e feed) (push_activity-IsFeed e feed h)

  -- Whatever events came before, a feed that an event has been pushed to holds the event or one that
  -- stands for it: one of its symbol and its rule, less than five seconds before or behind it. It
  -- holds at most twenty, and any two of one symbol and one rule lie at least five seconds apart.
  pub push_activity-push_all :
      (es feed : List (ActivityEvent N)) (e : ActivityEvent N)
      → IsFeed feed
      → let after = push_activity time_of e (push_all time_of es feed) in
        ((a : ActivityEvent N) × Memᴰ a after × IsRecord e a) × IsFeed after
  push_activity-push_all es feed e h =
      let before = push_all time_of es feed in
      (push_activity-IsRecord e before, push_activity-IsFeed e before (push_all-IsFeed es feed h))
