-- ===== src/Symbols/Tests.antt =====
-- A run of utils/validateSymbol.ts.
use aiautomation.Common.{◌≡◌, refl}
use aiautomation.Symbols.{validate_symbol, is_symbol_char, all_symbol_chars, nth_char, ok}

btc_valid : validate_symbol "BTC-USD" ≡ ok
unfolding validate_symbol all_symbol_chars is_symbol_char nth_char
btc_valid = refl
