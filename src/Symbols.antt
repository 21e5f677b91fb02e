-- ===== src/Symbols.antt =====
-- Ticker symbols: `symbol.trim().toUpperCase()`, by which store/marketStore.ts and services/ws.ts
-- normalise them, and utils/validateSymbol.ts. Upper case is that of the ASCII letters, which are
-- the letters of a symbol; white space is all that JavaScript trims.
pub mod Laws
mod Tests
use Prim.Native.Char.{Char, code}
use Prim.Native.String
use Prim.Native.String.{[], ◌∷◌, count}
use aiautomation.Common.{
  ℕ, zero, suc, ◌-◌, String, ◌==◌, Bool, true, ◌&&◌, ◌||◌, Option, none, some, leb, ltb, eqb,
  if◌then◌else◌,
}

abbrev pub between : ℕ → ℕ → ℕ → Bool
between lo hi n = leb lo n && leb n hi

unfoldable pub is_space : Char → Bool
is_space c =
    between 9 13 (code c)
    || eqb (code c) 32
    || eqb (code c) 0xa0
    || eqb (code c) 0x1680
    || between 0x2000 0x200a (code c)
    || between 0x2028 0x2029 (code c)
    || eqb (code c) 0x202f
    || eqb (code c) 0x205f
    || eqb (code c) 0x3000
    || eqb (code c) 0xfeff

unfoldable pub trim_start : String → String
trim_start [] = []
trim_start (c ∷ s) = if is_space c then trim_start s else c ∷ s

-- One character in front of a text that is trimmed at its end.
unfoldable pub cons_trimmed : Char → String → String
cons_trimmed c [] = if is_space c then [] else c ∷ []
cons_trimmed c (d ∷ s) = c ∷ d ∷ s

unfoldable pub trim_end : String → String
trim_end [] = []
trim_end (c ∷ s) = cons_trimmed c (trim_end s)

unfoldable pub nth_char : String → ℕ → Char → Char
nth_char [] i d = d
nth_char (c ∷ s) zero d = c
nth_char (c ∷ s) (suc i) d = nth_char s i d

unfoldable pub upper_char : Char → Char
unfolding nth_char
upper_char c =
    if between b'a' b'z' (code c)
    then nth_char "ABCDEFGHIJKLMNOPQRSTUVWXYZ" (code c - b'a') c
    else c

unfoldable pub to_upper : String → String
unfolding upper_char
to_upper [] = []
to_upper (c ∷ s) = upper_char c ∷ to_upper s

abbrev pub trim : String → String
trim s = trim_end (trim_start s)

-- `symbol.trim().toUpperCase()`
unfoldable pub normalize_symbol : String → String
normalize_symbol s = to_upper (trim_end (trim_start s))

-- `/^[A-Z0-9\-.]{1,20}$/`, for the class of one character.
unfoldable pub is_symbol_char : Char → Bool
is_symbol_char c =
    between b'A' b'Z' (code c)
    || between b'0' b'9' (code c)
    || eqb (code c) b'-'
    || eqb (code c) b'.'

unfoldable pub all_symbol_chars : String → Bool
all_symbol_chars [] = true
all_symbol_chars (c ∷ s) = is_symbol_char c && all_symbol_chars s

pub data SymbolValidation : Type 0 where
  ok required too_long bad_character : SymbolValidation

-- The length counts characters; the source counts UTF-16 units, which are more only for characters
-- that the expression refuses.
unfoldable pub validate_symbol : String → SymbolValidation
validate_symbol raw =
    if raw == ""
    then required
    else if ltb 20 (count raw)
    then too_long
    else if all_symbol_chars raw && leb 1 (count raw) && leb (count raw) 20
    then ok
    else bad_character
