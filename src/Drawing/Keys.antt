-- ===== src/Drawing/Keys.antt =====
-- The keys `${symbol}_${timeframe}` of store/drawingStore.ts, and how `paste` takes one apart.
use Prim.Native.Char.{Char, code}
use Prim.Native.String
use Prim.Native.String.{[], ◌∷◌}
use text.Mathlib.TextEquality.{Char-path}
use text.Mathlib.TextLemmas.{nil-append, cons-append}
use aiautomation.Common.{
  String, ◌≡◌, ap, sym, ◌∙◌, inl, inr, ◌≢◌, true, Option, none, some, eqb, if◌then◌else◌, arith,
  Bool-cases, Option-cases,
}

unfoldable pub drawing_key : String → String → String
drawing_key symbol timeframe = String.◌++◌ symbol (String.◌++◌ "_" timeframe)

-- The text before and behind the last underscore.
unfoldable pub split_last : String → Option (String × String)
split_last [] = none
split_last (c ∷ s) = elim (split_last s) [
  | some (a, b) ↦ some (c ∷ a, b)
  | none ↦ if eqb (code c) b'_' then some ([], s) else none
]

-- `s.slice(0, -1)`
unfoldable pub drop_last_char : String → String
drop_last_char [] = []
drop_last_char (c ∷ []) = []
drop_last_char (c ∷ d ∷ s) = c ∷ drop_last_char (d ∷ s)

-- `key.slice(0, i)` and `key.slice(i + 1)` at `i = key.lastIndexOf('_')`, which is -1 if there is no
-- underscore.
unfoldable pub split_key : String → String × String
unfolding split_last drop_last_char
split_key key = elim (split_last key) [ some (a, b) ↦ (a, b) | none ↦ (drop_last_char key, key) ]

drawing_key-cons : (c : Char) (a b : String) → drawing_key (c ∷ a) b ≡ c ∷ drawing_key a b
unfolding drawing_key
drawing_key-cons c a b = cons-append c a (String.◌++◌ "_" b)

drawing_key-nil : (c : Char) (b : String) → eqb (code c) b'_' ≡ true → drawing_key [] b ≡ c ∷ b
unfolding drawing_key
drawing_key-nil c b h =
    let e : c ≡ "_" = Char-path c "_" (ground arith) in
    nil-append (String.◌++◌ "_" b)
    ∙ cons-append "_" [] b
    ∙ ap (λ t. "_" ∷ t) (nil-append b)
    ∙ ap (λ d. d ∷ b) (sym e)

split_last-join : (s a b : String) → split_last s ≡ some (a, b) → drawing_key a b ≡ s
unfolding split_last
split_last-join [] a b h = cc
split_last-join (c ∷ s) a b h = elim (Option-cases (split_last s)) [
  | inl e ↦ elim (Bool-cases (eqb (code c) b'_')) [
    | inl t ↦ cc (drawing_key-nil c s t, rw (e, split_last, t) at h)
    | inr f ↦ cc (rw (e, split_last, f) at h)
  ]
  | inr ((x, y), e) ↦ cc (drawing_key-cons c x y, split_last-join s x y e, rw (e, split_last) at h)
]

-- Joining the parts of a key that has an underscore gives the key back.
pub drawing_key-split_key :
    (key : String) → split_last key ≢ none → drawing_key (split_key key).0 (split_key key).1 ≡ key
unfolding split_key
drawing_key-split_key key h = elim (Option-cases (split_last key)) [
  | inl e ↦ absurd (h e)
  | inr ((a, b), e) ↦ rw (e, split_key) (split_last-join key a b e)
]
