-- ===== src/Common/Int.antt =====
-- Signed integers over the native numbers, under the library's names (its ℤ stands on the unary ℕ),
-- and `i32`, whose sums wrap.
use Prim.Native.Nat.{ℕ, suc, ◌+◌, ◌-◌, ◌%◌, ◌≤◌}
use mathlib.Core.Path.{◌≡◌}
use mathlib.Core.Bool.{Bool}
use native.Mathlib.Omega.{arith}
use pinnacle.Common.Tests.{ltb, leb, ◌==◌, if◌then◌else◌}

-- `negsuc n` is -(n + 1).
pub data ℤ : Type 0 where
  pos : ℕ → ℤ
  negsuc : ℕ → ℤ

abbrev pub pos_part : ℤ → ℕ
pos_part (pos n) = n
pos_part (negsuc n) = 0

abbrev pub neg_part : ℤ → ℕ
neg_part (pos n) = 0
neg_part (negsuc n) = suc n

-- a - b, as an integer.
abbrev pub sub_ℕ : ℕ → ℕ → ℤ
sub_ℕ a b = if leb b a then pos (a - b) else negsuc (b - a - 1)

infixl 65 ◌+ℤ◌ ◌-ℤ◌
infix 50 ◌≤ℤ◌
unfoldable pub ◌+ℤ◌ : ℤ → ℤ → ℤ
a +ℤ b = sub_ℕ (pos_part a + pos_part b) (neg_part a + neg_part b)

unfoldable pub ◌-ℤ◌ : ℤ → ℤ → ℤ
a -ℤ b = sub_ℕ (pos_part a + neg_part b) (neg_part a + pos_part b)

abbrev pub ◌≤ℤ◌ : ℤ → ℤ → Type 0
a ≤ℤ b = pos_part a + neg_part b ≤ pos_part b + neg_part a

abbrev pub ltb_ℤ : ℤ → ℤ → Bool
ltb_ℤ a b = ltb (pos_part a + neg_part b) (pos_part b + neg_part a)

abbrev pub leb_ℤ : ℤ → ℤ → Bool
leb_ℤ a b = leb (pos_part a + neg_part b) (pos_part b + neg_part a)

abbrev pub eqb_ℤ : ℤ → ℤ → Bool
eqb_ℤ a b = pos_part a + neg_part b == pos_part b + neg_part a

abbrev pub max_ℤ : ℤ → ℤ → ℤ
max_ℤ a b = if leb_ℤ a b then b else a

abbrev pub min_ℤ : ℤ → ℤ → ℤ
min_ℤ a b = if leb_ℤ a b then a else b

-- The `i32` with the given bits: `n as i32`, with `n : u32`.
unfoldable pub to_i32 : ℕ → ℤ
to_i32 n =
    let bits = n % 4294967296 in if ltb bits 2147483648 then pos bits else sub_ℕ bits 4294967296

-- The low 32 bits of an integer, in two's complement.
abbrev bits_of : ℤ → ℕ
bits_of (pos n) = n % 4294967296
bits_of (negsuc n) = 4294967295 - n % 4294967296

unfoldable pub wrap_i32 : ℤ → ℤ
unfolding to_i32
wrap_i32 a = to_i32 (bits_of a)

-- `a + b` and `a - b` on `i32`, as the release build computes them.
infixl 65 ◌+ᵢ◌ ◌-ᵢ◌
unfoldable pub ◌+ᵢ◌ : ℤ → ℤ → ℤ
unfolding ◌+ℤ◌ wrap_i32
a +ᵢ b = wrap_i32 (a +ℤ b)

unfoldable pub ◌-ᵢ◌ : ℤ → ℤ → ℤ
unfolding ◌-ℤ◌ wrap_i32
a -ᵢ b = wrap_i32 (a -ℤ b)

abbrev pub IsI32 : ℤ → Type 0
IsI32 a = (negsuc 2147483647 ≤ℤ a) × (a ≤ℤ pos 2147483647)

-- No wrap where the result is in range.
pub wrap_i32-of_IsI32 : (a : ℤ) → IsI32 a → wrap_i32 a ≡ a
unfolding wrap_i32
wrap_i32-of_IsI32 (pos n) h = ground arith
wrap_i32-of_IsI32 (negsuc n) h = ground arith

pub wrap_i32-IsI32 : (a : ℤ) → IsI32 (wrap_i32 a)
unfolding wrap_i32
wrap_i32-IsI32 (pos n) = ground arith
wrap_i32-IsI32 (negsuc n) = ground arith
