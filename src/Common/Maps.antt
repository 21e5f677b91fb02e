-- ===== src/Common/Maps.antt =====
-- `Record<string, V>`: an association list in insertion order. Writing an existing key keeps its
-- place. Keys that look like array indices, which JavaScript would list first, are left out.
use Prim.Native.String.{String}
use mathlib.Core.Path.{subst, ◌≡◌, refl, sym, ap, ◌∙◌}
use mathlib.Core.Option.{Option, none, some}
use mathlib.Core.List.{List, [], ◌∷◌, ◌++◌}
use native.Mathlib.Omega.{arith}
use text.Mathlib.Text.{◌==◌}
use text.Mathlib.TextEquality.{eq_iff}
use text.Mathlib.TextPositions.{eq_refl}
use mathlib.Core.Bool.{Bool, false, not, ◌&&◌, ◌||◌}
use mathlib.Core.Logic.{inl, inr}
use aiautomation.Common.Lists.{any, filter, All, All-imp, All-zip}
use aiautomation.Common.Tests.{some_inj, Bool-cases, if◌then◌else◌}

abbrev pub Dict {ℓ} : Type ℓ → Type ℓ
Dict V = List (String × V)

module _ {ℓ} {V : Type ℓ} where
  unfoldable pub lookup : String → Dict V → Option V
  lookup key [] = none
  lookup key ((name, value) ∷ rest) = if name == key then some value else lookup key rest

  unfoldable pub insert : String → V → Dict V → Dict V
  insert key new [] = (key, new) ∷ []
  insert key new ((name, value) ∷ rest) =
      if name == key then (name, new) ∷ rest else (name, value) ∷ insert key new rest

  pub lookup-insert :
      (key other : String) (new : V) (m : Dict V)
      → lookup other (insert key new m) ≡ (if key == other then some new else lookup other m)
  unfolding lookup insert
  lookup-insert key other new [] = refl
  lookup-insert key other new ((name, value) ∷ rest) = ground (
    arith,
    lookup-insert key other new rest,
    eq_iff name other,
    eq_iff name key,
    eq_iff key other,
  )

  pub lookup-insert_self : (k : String) (v : V) (m : Dict V) → lookup k (insert k v m) ≡ some v
  lookup-insert_self k v m = ground (arith, lookup-insert k k v m, eq_iff k k)

-- The loop `for (const [key, v] of Object.entries(m)) out[key] = f(v)`, from `out = {}`.
unfoldable pub map_values {ℓ κ} : {V : Type ℓ} {W : Type κ} → (V → W) → Dict V → Dict W
map_values f [] = []
map_values f ((k, v) ∷ m) = (k, f v) ∷ map_values f m

module _ {ℓ κ} {V : Type ℓ} {W : Type κ} (f : V → W) where
  abbrev pub map_option : Option V → Option W
  map_option none = none
  map_option (some v) = some (f v)

  pub lookup-map_values :
      (k : String) (m : Dict V) → lookup k (map_values f m) ≡ map_option (lookup k m)
  unfolding lookup map_values
  lookup-map_values k [] = refl
  lookup-map_values k ((j, v) ∷ m) = ground (arith, lookup-map_values k m)

module _ {ℓ} {V : Type ℓ} where
  -- The keys of an object are distinct.
  abbrev pub Distinct : Dict V → Type ℓ
  Distinct [] = Unit
  Distinct ((k, v) ∷ m) = (lookup k m ≡ none) × Distinct m

  pub insert-eq_self : (k : String) (v : V) (m : Dict V) → lookup k m ≡ some v → insert k v m ≡ m
  unfolding lookup insert
  insert-eq_self k v [] h = cc
  insert-eq_self k v ((j, w) ∷ m) h = ground (arith, insert-eq_self k v m)

  pub insert_new :
      (k : String) (v : V) (m : Dict V) → lookup k m ≡ none → insert k v m ≡ m ++ (k, v) ∷ []
  unfolding lookup insert
  insert_new k v [] h = refl
  insert_new k v ((j, w) ∷ m) h = ground (arith, insert_new k v m)

  lookup-cons_old :
      (k j : String) (v w : V) (m : Dict V)
      → lookup k m ≡ none
      → lookup j m ≡ some w
      → lookup j ((k, v) ∷ m) ≡ some w
  unfolding lookup
  lookup-cons_old k j v w m h e = elim (Bool-cases (k == j)) [
    | inl t ↦
        let same : k ≡ j = (eq_iff k j).0 t in
        let clash : none ≡ some w = sym h ∙ ap (λ x. lookup x m) same ∙ e in cc
    | inr t ↦ rw t e
  ]

  -- Each entry of an object is found under its key.
  pub lookup-All_self : (m : Dict V) → Distinct m → All (λ e. lookup e.0 m ≡ some e.1) m
  unfolding lookup
  lookup-All_self [] h = tt
  lookup-All_self ((k, v) ∷ m) h =
      (rw (eq_refl k), All-imp m (λ e. lookup-cons_old k e.0 v e.1 m h.0) (lookup-All_self m h.1))

  lookup-none-ne : (k : String) (m : Dict V) → lookup k m ≡ none → All (λ e. (k == e.0) ≡ false) m
  unfolding lookup
  lookup-none-ne k [] h = tt
  lookup-none-ne k ((j, v) ∷ m) h =
      (ground (arith, eq_iff k j, eq_iff j k), lookup-none-ne k m (ground arith))

  -- Keys that are new to `m` and differ from `k` are new once `k` is written.
  pub lookup-none-insert :
      (k : String) (v : V) (m rest : Dict V)
      → lookup k rest ≡ none
      → All (λ e. lookup e.0 m ≡ none) rest
      → All (λ e. lookup e.0 (insert k v m) ≡ none) rest
  lookup-none-insert k v m rest h a =
      All-zip rest (λ e n o. lookup-insert k e.0 v m ∙ rw n o) (lookup-none-ne k rest h) a

module _ {ℓ κ} {V : Type ℓ} (P : V → Type κ) where
  pub All-insert :
      (key : String) (new : V) (m : Dict V)
      → P new
      → All (λ e. P e.1) m
      → All (λ e. P e.1) (insert key new m)
  unfolding insert
  All-insert key new [] p h = (p, tt)
  All-insert key new ((name, value) ∷ rest) p h = elim (Bool-cases (name == key)) [
    | inl e ↦ rw e (p, h.1)
    | inr e ↦ rw e (h.0, All-insert key new rest p h.1)
  ]

  pub lookup-All :
      (key : String) (m : Dict V) {value : V}
      → All (λ e. P e.1) m
      → lookup key m ≡ some value
      → P value
  unfolding lookup
  lookup-All key [] h e = cc
  lookup-All key ((name, value) ∷ rest) h e = elim (Bool-cases (name == key)) [
    | inl t ↦ subst P (some_inj (rw t at e)) h.0
    | inr t ↦ lookup-All key rest h.1 (rw t at e)
  ]

-- A `Set<string>` as a list: what it has, and the removal of one element.
abbrev pub includes : String → List String → Bool
includes x xs = any (λ y. y == x) xs

abbrev pub without : String → List String → List String
without x xs = filter (λ y. not (y == x)) xs

pub includes-append :
    (x : String) (xs ys : List String) → includes x (xs ++ ys) ≡ (includes x xs || includes x ys)
includes-append x [] ys = refl
includes-append x (y ∷ xs) ys = ground (arith, includes-append x xs ys)

pub includes-without :
    (x y : String) (xs : List String) → includes x (without y xs) ≡ (includes x xs && not (x == y))
includes-without x y [] = refl
includes-without x y (z ∷ xs) =
    ground (arith, includes-without x y xs, eq_iff z x, eq_iff z y, eq_iff x y)
