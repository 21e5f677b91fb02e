-- ===== src/Symbols/Laws.antt =====
-- The normal form of a symbol that utils/validateSymbol.ts accepts.
use Prim.Native.Char.{Char}
use Prim.Native.String.{[], ◌∷◌}
use mathlib.Core.Bool.{and-eq-true_iff}
use aiautomation.Common.{String, ◌≡◌, refl, true, false, arith}
use aiautomation.Symbols.{
  is_space, trim_start, cons_trimmed, trim_end, upper_char, to_upper, normalize_symbol,
  is_symbol_char, all_symbol_chars, ok, validate_symbol,
}

upper_char-symbol : (c : Char) → is_symbol_char c ≡ true → upper_char c ≡ c
unfolding upper_char is_symbol_char
upper_char-symbol c h = ground arith

is_space-symbol : (c : Char) → is_symbol_char c ≡ true → is_space c ≡ false
unfolding is_space is_symbol_char
is_space-symbol c h = ground arith

all_symbol_chars-cons :
    (c : Char) (s : String)
    → all_symbol_chars (c ∷ s) ≡ true
    → (is_symbol_char c ≡ true) × (all_symbol_chars s ≡ true)
unfolding all_symbol_chars
all_symbol_chars-cons c s h = (and-eq-true_iff _ _).0 h

to_upper-symbol : (s : String) → all_symbol_chars s ≡ true → to_upper s ≡ s
unfolding to_upper
to_upper-symbol [] h = refl
to_upper-symbol (c ∷ s) h =
    let (here, later) = all_symbol_chars-cons c s h in
    rw (upper_char-symbol c here, to_upper-symbol s later)

cons_trimmed-symbol : (c : Char) (s : String) → is_space c ≡ false → cons_trimmed c s ≡ c ∷ s
unfolding cons_trimmed
cons_trimmed-symbol c [] h = rw h
cons_trimmed-symbol c (d ∷ s) h = refl

trim_end-symbol : (s : String) → all_symbol_chars s ≡ true → trim_end s ≡ s
unfolding trim_end
trim_end-symbol [] h = refl
trim_end-symbol (c ∷ s) h =
    let (here, later) = all_symbol_chars-cons c s h in
    rw (trim_end-symbol s later) (cons_trimmed-symbol c s (is_space-symbol c here))

trim_start-symbol : (s : String) → all_symbol_chars s ≡ true → trim_start s ≡ s
unfolding trim_start
trim_start-symbol [] h = refl
trim_start-symbol (c ∷ s) h = rw (is_space-symbol c (all_symbol_chars-cons c s h).0)

all_symbol_chars_of_valid : (s : String) → validate_symbol s ≡ ok → all_symbol_chars s ≡ true
unfolding validate_symbol
all_symbol_chars_of_valid s h = ground arith

-- A symbol that passes validation is kept as it is by `trim` and `toUpperCase`.
pub normalize_symbol_of_valid : (s : String) → validate_symbol s ≡ ok → normalize_symbol s ≡ s
unfolding normalize_symbol
normalize_symbol_of_valid s h =
    let chars = all_symbol_chars_of_valid s h in
    rw (trim_start-symbol s chars, trim_end-symbol s chars) (to_upper-symbol s chars)
