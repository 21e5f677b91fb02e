-- ===== src/Activity/Counts.antt =====
-- store/alertStore.ts: the counts by symbol that the statistics are made of, and their order.
use mathlib.Core.List.{Memᴰ}
use mathlib.Core.List.Memᴰ
use aiautomation.Common.{
  ℕ, zero, suc, ◌+◌, ◌≤◌, String, ◌==◌, eq_iff, ◌≡◌, refl, sym, ap, ◌∙◌, subst, ◌⊎◌, inl, inr,
  Bool-cases, none, some, or_else, List, [], ◌∷◌, filter, take, length, leb, leb→le, All, All-take,
  All-imp, Dict, lookup, insert, lookup-insert, Distinct, arith,
}
use aiautomation.Activity.{AlertHistory}
use aiautomation.Activity.Stats.{symbol_counts, insert_count, sort_counts}

Distinct-insert : (k : String) (v : ℕ) (m : Dict ℕ) → Distinct m → Distinct (insert k v m)
unfolding insert lookup
Distinct-insert k v [] h = (refl, tt)
Distinct-insert k v ((j, w) ∷ m) h = elim (Bool-cases (j == k)) [
  | inl e ↦ rw e h
  | inr e ↦
      let new : lookup j (insert k v m) ≡ none =
        lookup-insert k j v m ∙ ground (arith, eq_iff k j, eq_iff j k) in
      rw e (new, Distinct-insert k v m h.1)
]

module _ {N : Type 0} where
  -- How many alerts of the history are of a symbol.
  abbrev pub occurrences : String → List (AlertHistory N) → ℕ
  occurrences s history = length (filter (λ h. h.symbol == s) history)

  lookup-symbol_counts :
      (s : String) (m : Dict ℕ) (hs : List (AlertHistory N))
      → or_else (lookup s (symbol_counts m hs)) 0 ≡ or_else (lookup s m) 0 + occurrences s hs
  unfolding symbol_counts
  lookup-symbol_counts s m [] = omega arith
  lookup-symbol_counts s m (h ∷ hs) =
      let n = or_else (lookup h.symbol m) 0 + 1 in
      let ih = lookup-symbol_counts s (insert h.symbol n m) hs in
      elim (Bool-cases (h.symbol == s)) [
        | inl e ↦
            let same : h.symbol ≡ s = (eq_iff h.symbol s).0 e in
            let found : lookup s (insert h.symbol n m) ≡ some n =
              lookup-insert h.symbol s n m ∙ rw e refl in
            let here : or_else (lookup s (insert h.symbol n m)) 0 ≡ or_else (lookup s m) 0 + 1 =
              ap (λ o. or_else o 0) found ∙ ap (λ k. or_else (lookup k m) 0 + 1) same in
            rw e (omega (arith, ih, here))
        | inr e ↦
            let here : lookup s (insert h.symbol n m) ≡ lookup s m =
              lookup-insert h.symbol s n m ∙ rw e refl in
            rw e (ih ∙ ap (λ o. or_else o 0 + occurrences s hs) here)
      ]

  pub lookup-symbol_counts_all :
      (s : String) (hs : List (AlertHistory N))
      → or_else (lookup s (symbol_counts [] hs)) 0 ≡ occurrences s hs
  unfolding lookup
  lookup-symbol_counts_all s hs =
      let e : 0 + occurrences s hs ≡ occurrences s hs = omega arith in
      lookup-symbol_counts s [] hs ∙ e

  pub Distinct-symbol_counts :
      (m : Dict ℕ) (hs : List (AlertHistory N)) → Distinct m → Distinct (symbol_counts m hs)
  unfolding symbol_counts
  Distinct-symbol_counts m [] h = h
  Distinct-symbol_counts m (x ∷ hs) h =
      Distinct-symbol_counts (insert x.symbol (or_else (lookup x.symbol m) 0 + 1) m) hs
        (Distinct-insert x.symbol (or_else (lookup x.symbol m) 0 + 1) m h)

pub Memᴰ-lookup : (k : String) (v : ℕ) (m : Dict ℕ) → lookup k m ≡ some v → Memᴰ (k, v) m
unfolding lookup
Memᴰ-lookup k v [] h = cc
Memᴰ-lookup k v ((j, w) ∷ m) h = elim (Bool-cases (j == k)) [
  | inl e ↦
      let same : j ≡ k = (eq_iff j k).0 e in
      let found : some w ≡ some v = rw e at h in Memᴰ.head (cc)
  | inr e ↦ Memᴰ.tail (Memᴰ-lookup k v m (rw e at h))
]

-- Entries by falling count.
abbrev pub Falling : List (String × ℕ) → Type 0
Falling [] = Unit
Falling (c ∷ cs) = All (λ d. d.1 ≤ c.1) cs × Falling cs

module _ (P : String × ℕ → Type 0) where
  All-insert_count :
      (c : String × ℕ) (cs : List (String × ℕ)) → P c → All P cs → All P (insert_count c cs)
  unfolding insert_count
  All-insert_count c [] p h = (p, tt)
  All-insert_count c (d ∷ ds) p h = elim (Bool-cases (leb d.1 c.1)) [
    | inl e ↦ rw e (p, h)
    | inr e ↦ rw e (h.0, All-insert_count c ds p h.1)
  ]

  pub All-sort_counts : (cs : List (String × ℕ)) → All P cs → All P (sort_counts cs)
  unfolding sort_counts
  All-sort_counts [] h = tt
  All-sort_counts (c ∷ cs) h = All-insert_count c (sort_counts cs) h.0 (All-sort_counts cs h.1)

insert_count-Falling :
    (c : String × ℕ) (cs : List (String × ℕ)) → Falling cs → Falling (insert_count c cs)
unfolding insert_count
insert_count-Falling c [] h = (tt, tt)
insert_count-Falling c (d ∷ ds) h = elim (Bool-cases (leb d.1 c.1)) [
  | inl e ↦
      let first : d.1 ≤ c.1 = leb→le _ _ e in rw e ((first, All-imp ds (λ u k. omega arith) h.0), h)
  | inr e ↦
      rw e
        (All-insert_count (λ u. u.1 ≤ d.1) c ds (ground arith) h.0, insert_count-Falling c ds h.1)
]

pub sort_counts-Falling : (cs : List (String × ℕ)) → Falling (sort_counts cs)
unfolding sort_counts
sort_counts-Falling [] = tt
sort_counts-Falling (c ∷ cs) = insert_count-Falling c (sort_counts cs) (sort_counts-Falling cs)

Memᴰ-insert_count :
    (d c : String × ℕ) (cs : List (String × ℕ)) → Memᴰ d (c ∷ cs) → Memᴰ d (insert_count c cs)
unfolding insert_count
Memᴰ-insert_count d c [] h = h
Memᴰ-insert_count d c (u ∷ us) h = elim (Bool-cases (leb u.1 c.1)) [
  | inl e ↦ rw (e, insert_count) h
  | inr e ↦ elim (Memᴰ.cases_cons h) [
    | inl q ↦ rw (e, insert_count) (Memᴰ.tail (Memᴰ-insert_count d c us (Memᴰ.head q)))
    | inr k ↦ elim (Memᴰ.cases_cons k) [
      | inl q ↦ rw (e, insert_count) (Memᴰ.head q)
      | inr i ↦ rw (e, insert_count) (Memᴰ.tail (Memᴰ-insert_count d c us (Memᴰ.tail i)))
    ]
  ]
]

pub Memᴰ-sort_counts :
    (d : String × ℕ) (cs : List (String × ℕ)) → Memᴰ d cs → Memᴰ d (sort_counts cs)
unfolding sort_counts
Memᴰ-sort_counts d [] h = h
Memᴰ-sort_counts d (c ∷ cs) h =
    Memᴰ-insert_count d c (sort_counts cs) (elim (Memᴰ.cases_cons h) [
      | inl e ↦ Memᴰ.head e
      | inr i ↦ Memᴰ.tail (Memᴰ-sort_counts d cs i)
    ])

All-Memᴰ :
    (P : String × ℕ → Type 0) {d : String × ℕ} (cs : List (String × ℕ)) → All P cs → Memᴰ d cs → P d
All-Memᴰ P [] h i = absurd (Memᴰ.not-nil i)
All-Memᴰ P (c ∷ cs) h i = elim (Memᴰ.cases_cons i) [
  | inl e ↦ subst P (sym e) h.0
  | inr k ↦ All-Memᴰ P cs h.1 k
]

-- An entry is among the first ones, or does not exceed any of them.
pub first_or_below :
    (n : ℕ) (d : String × ℕ) (cs : List (String × ℕ))
    → Falling cs
    → Memᴰ d cs
    → Memᴰ d (take n cs) ⊎ All (λ c. d.1 ≤ c.1) (take n cs)
first_or_below zero d cs h i = inr tt
first_or_below (suc n) d [] h i = inr tt
first_or_below (suc n) d (c ∷ cs) h i = elim (Memᴰ.cases_cons i) [
  | inl e ↦ inl (Memᴰ.head e)
  | inr k ↦ elim (first_or_below n d cs h.1 k) [
    | inl j ↦ inl (Memᴰ.tail j)
    | inr all ↦ inr (All-Memᴰ (λ u. u.1 ≤ c.1) cs h.0 k, all)
  ]
]

pub Falling-take : (n : ℕ) (cs : List (String × ℕ)) → Falling cs → Falling (take n cs)
Falling-take zero cs h = tt
Falling-take (suc n) [] h = tt
Falling-take (suc n) (c ∷ cs) h = (All-take (λ d. d.1 ≤ c.1) n cs h.0, Falling-take n cs h.1)
