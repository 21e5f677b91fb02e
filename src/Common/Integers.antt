-- ===== src/Common/Integers.antt =====
-- Arithmetic of the integers for the runs: quotients, roots and comparison.
use mathlib.Core.Nat as Unary
use mathlib.Core.Int.{ℤ, pos, negsuc, suc_ℤ, ◌-ℤ◌, ◌*ℤ◌, neg_ℤ}
use Prim.Native.Nat.{ℕ, zero, suc}
use mathlib.Core.Bool.{Bool, true, false, not}

-- The quotient of integers, towards zero, counted down from the dividend.
abbrev times_in : Unary.ℕ → ℤ → ℤ → ℤ
times_in Unary.zero a b = pos 0
times_in (Unary.suc fuel) a b = elim (a -ℤ b) [
  | pos rest ↦ suc_ℤ (times_in fuel (a -ℤ b) b)
  | negsuc rest ↦ pos 0
]

abbrev pub quotient : ℤ → ℤ → ℤ
quotient (pos a) b = times_in a (pos a) b
quotient (negsuc a) b = neg_ℤ (times_in (Unary.suc a) (pos (Unary.suc a)) b)

abbrev pub of_count : ℕ → ℤ
of_count zero = pos 0
of_count (suc n) = suc_ℤ (of_count n)

abbrev pub larger : ℤ → ℤ → ℤ
larger a b = elim (a -ℤ b) [ pos rest ↦ a | negsuc rest ↦ b ]

abbrev pub at_least_zero : ℤ → Bool
at_least_zero (pos n) = true
at_least_zero (negsuc n) = false

abbrev root_from : Unary.ℕ → ℤ → ℤ
root_from Unary.zero a = pos 0
root_from (Unary.suc n) a = elim (a -ℤ pos (Unary.suc n) *ℤ pos (Unary.suc n)) [
  | pos rest ↦ pos (Unary.suc n)
  | negsuc rest ↦ root_from n a
]

abbrev pub root : ℤ → ℤ
root (pos n) = root_from n (pos n)
root (negsuc n) = pos 0

abbrev unary_leb : Unary.ℕ → Unary.ℕ → Bool
unary_leb Unary.zero b = true
unary_leb (Unary.suc a) Unary.zero = false
unary_leb (Unary.suc a) (Unary.suc b) = unary_leb a b

abbrev pub at_most : ℤ → ℤ → Bool
at_most (pos a) (pos b) = unary_leb a b
at_most (pos a) (negsuc b) = false
at_most (negsuc a) (pos b) = true
at_most (negsuc a) (negsuc b) = unary_leb b a

abbrev pub is_below : ℤ → ℤ → Bool
is_below a b = not (at_most b a)
