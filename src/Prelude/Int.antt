-- ===== src/Prelude/Int.antt =====
-- Signed integers over the native numbers, and the wrap-around of the machine's.
use Prim.Native.Nat.{ℕ, suc, ◌+◌, ◌-◌, ◌*◌, ◌/◌, ◌%◌, ◌^◌, ◌≤◌, ◌<◌}
use mathlib.Core.Path.{◌≡◌}
use mathlib.Core.Logic.{◌↔◌}
use mathlib.Core.Bool.{Bool, true}
use native.Mathlib.Omega.{arith}
use kdeconnect_nx.Prelude.Tests.{ltb, leb, ◌==◌, if◌then◌else◌}

-- `negsuc n` is -(n + 1).
pub data ℤ : Type 0 where
  pos : ℕ → ℤ
  negsuc : ℕ → ℤ

abbrev pub pos_part : ℤ → ℕ
pos_part (pos n) = n
pos_part (negsuc n) = 0

abbrev pub neg_part : ℤ → ℕ
neg_part (pos n) = 0
neg_part (negsuc n) = suc n

-- a - b, as an integer.
abbrev pub sub_ℕ : ℕ → ℕ → ℤ
sub_ℕ a b = if leb b a then pos (a - b) else negsuc (b - a - 1)

infixl 65 ◌+ℤ◌ ◌-ℤ◌
infix 50 ◌≤ℤ◌
unfoldable pub ◌+ℤ◌ : ℤ → ℤ → ℤ
a +ℤ b = sub_ℕ (pos_part a + pos_part b) (neg_part a + neg_part b)

unfoldable pub ◌-ℤ◌ : ℤ → ℤ → ℤ
a -ℤ b = sub_ℕ (pos_part a + neg_part b) (neg_part a + pos_part b)

-- The negation of a natural number.
abbrev pub neg : ℕ → ℤ
neg n = sub_ℕ 0 n

infixl 70 ◌*ℤ◌
unfoldable pub ◌*ℤ◌ : ℤ → ℤ → ℤ
pos m *ℤ pos n = pos (m * n)
pos m *ℤ negsuc n = neg (m * suc n)
negsuc m *ℤ pos n = neg (suc m * n)
negsuc m *ℤ negsuc n = pos (suc m * suc n)

-- Division as of C, towards 0.
unfoldable pub quot_ℤ : ℤ → ℤ → ℤ
quot_ℤ (pos m) (pos n) = pos (m / n)
quot_ℤ (pos m) (negsuc n) = neg (m / suc n)
quot_ℤ (negsuc m) (pos n) = neg (suc m / n)
quot_ℤ (negsuc m) (negsuc n) = pos (suc m / suc n)

pub add_pos : (a b : ℕ) → pos a +ℤ pos b ≡ pos (a + b)
unfolding ◌+ℤ◌
add_pos a b = ground arith

pub sub_pos : (a b : ℕ) → b ≤ a → pos a -ℤ pos b ≡ pos (a - b)
unfolding ◌-ℤ◌
sub_pos a b h = ground arith

abbrev pub ◌≤ℤ◌ : ℤ → ℤ → Type 0
a ≤ℤ b = pos_part a + neg_part b ≤ pos_part b + neg_part a

abbrev pub ltb_ℤ : ℤ → ℤ → Bool
ltb_ℤ a b = ltb (pos_part a + neg_part b) (pos_part b + neg_part a)

abbrev pub leb_ℤ : ℤ → ℤ → Bool
leb_ℤ a b = leb (pos_part a + neg_part b) (pos_part b + neg_part a)

-- `std::max` and `std::min`
abbrev pub max_ℤ : ℤ → ℤ → ℤ
max_ℤ a b = if ltb_ℤ a b then b else a

abbrev pub min_ℤ : ℤ → ℤ → ℤ
min_ℤ a b = if ltb_ℤ b a then b else a

abbrev pub eq_ℤ : ℤ → ℤ → Bool
eq_ℤ a b = pos_part a + neg_part b == pos_part b + neg_part a

pub eq_ℤ_iff : (a b : ℤ) → (eq_ℤ a b ≡ true) ↔ (a ≡ b)
eq_ℤ_iff a b = ground arith

-- The value of a signed word of `2 * half` bit patterns, two's complement.
abbrev pub signed : ℕ → ℕ → ℤ
signed half u = if ltb u half then pos u else negsuc (half + half - 1 - u)

-- The bit pattern of an integer in a word of `size` patterns.
abbrev pub pattern_of : ℕ → ℤ → ℕ
pattern_of size (pos n) = n % size
pattern_of size (negsuc n) = size - 1 - n % size

-- What an `int` and an `int64_t` hold after an operation whose exact result is the argument.
unfoldable pub wrap32 : ℤ → ℤ
wrap32 z = signed (2 ^ 31) (pattern_of (2 ^ 32) z)

unfoldable pub wrap64 : ℤ → ℤ
wrap64 z = signed (2 ^ 63) (pattern_of (2 ^ 64) z)

abbrev pub IsInt32 : ℤ → Type 0
IsInt32 z = (pos_part z < 2 ^ 31) × (neg_part z ≤ 2 ^ 31)

abbrev pub IsInt64 : ℤ → Type 0
IsInt64 z = (pos_part z < 2 ^ 63) × (neg_part z ≤ 2 ^ 63)

pub wrap32_lem : (z : ℤ) → IsInt32 z → wrap32 z ≡ z
unfolding wrap32
wrap32_lem (pos n) h = ground arith
wrap32_lem (negsuc n) h = ground arith

pub wrap64_lem : (z : ℤ) → IsInt64 z → wrap64 z ≡ z
unfolding wrap64
wrap64_lem (pos n) h = ground arith
wrap64_lem (negsuc n) h = ground arith

-- `std::llabs`: the least value has no negation and comes back as it is.
unfoldable pub llabs : ℤ → ℤ
llabs z = wrap64 (pos (pos_part z + neg_part z))
