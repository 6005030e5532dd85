-- ===== src/Prelude/GoInt.antt =====
-- Signed integers over the native numbers, and Go's 64-bit `int`, `int64` and `time.Duration`,
-- whose results wrap round.
use Prim.Native.Nat.{ℕ, suc, ◌+◌, ◌-◌, ◌*◌, ◌/◌, ◌%◌, ◌≤◌, ◌<◌}
use mathlib.Core.Path.{◌≡◌}
use mathlib.Core.Bool.{Bool, ◌&&◌}
use native.Mathlib.Omega.{arith}
use native.Mathlib.Nat.{le_trans, le-div_iff_mul-le, div-mul-le_self}
use mathlib.Core.Logic.{◌↔◌}
use almichot_cloud.Prelude.Tests.{ltb, leb, if◌then◌else◌}

-- `negsuc n` is -(n + 1).
pub data ℤ : Type 0 where
  pos : ℕ → ℤ
  negsuc : ℕ → ℤ

abbrev pub pos_part : ℤ → ℕ
pos_part (pos n) = n
pos_part (negsuc n) = 0

abbrev pub neg_part : ℤ → ℕ
neg_part (pos n) = 0
neg_part (negsuc n) = suc n

-- a - b, as an integer.
abbrev pub sub_ℕ : ℕ → ℕ → ℤ
sub_ℕ a b = if leb b a then pos (a - b) else negsuc (b - a - 1)

infix 50 ◌≤ℤ◌ ◌<ℤ◌
abbrev pub ◌≤ℤ◌ : ℤ → ℤ → Type 0
a ≤ℤ b = pos_part a + neg_part b ≤ pos_part b + neg_part a

abbrev pub ◌<ℤ◌ : ℤ → ℤ → Type 0
a <ℤ b = pos_part a + neg_part b < pos_part b + neg_part a

abbrev pub ltb_ℤ : ℤ → ℤ → Bool
ltb_ℤ a b = ltb (pos_part a + neg_part b) (pos_part b + neg_part a)

abbrev pub leb_ℤ : ℤ → ℤ → Bool
leb_ℤ a b = leb (pos_part a + neg_part b) (pos_part b + neg_part a)

abbrev pub eqb_ℤ : ℤ → ℤ → Bool
eqb_ℤ a b = leb_ℤ a b && leb_ℤ b a

-- 2^63
abbrev pub half_word : ℕ
half_word = 9223372036854775808

-- 2^64
abbrev pub word : ℕ
word = 18446744073709551616

-- The integers that an `int` holds.
abbrev pub IsInt : ℤ → Type 0
IsInt z = (pos_part z < half_word) × (neg_part z ≤ half_word)

-- The value of `int` that is congruent to the argument.
wrap_far : ℤ → ℤ
wrap_far (pos n) = let r = n % word in if ltb r half_word then pos r else negsuc (word - r - 1)
wrap_far (negsuc n) = let r = n % word in if ltb r half_word then negsuc r else pos (word - r - 1)

unfoldable pub wrap : ℤ → ℤ
unfolding wrap_far
wrap z = if ltb (pos_part z) half_word && leb (neg_part z) half_word then z else wrap_far z

pub wrap_lem : (z : ℤ) → IsInt z → wrap z ≡ z
unfolding wrap
wrap_lem z h = ground arith

-- Every result is an `int`.
pub wrap-IsInt : (z : ℤ) → IsInt (wrap z)
unfolding wrap
wrap-IsInt (pos n) = ground arith
wrap-IsInt (negsuc n) = ground arith

-- The conversion to `int32`
unfoldable pub to_int32 : ℤ → ℤ
to_int32 (pos n) =
    let r = n % 4294967296 in if ltb r 2147483648 then pos r else negsuc (4294967296 - r - 1)
to_int32 (negsuc n) =
    let r = n % 4294967296 in if ltb r 2147483648 then negsuc r else pos (4294967296 - r - 1)

-- a + b and a - b on `int`
unfoldable pub int_add : ℤ → ℤ → ℤ
int_add a b = wrap (sub_ℕ (pos_part a + pos_part b) (neg_part a + neg_part b))

unfoldable pub int_sub : ℤ → ℤ → ℤ
int_sub a b = wrap (sub_ℕ (pos_part a + neg_part b) (neg_part a + pos_part b))

-- a / b on `int`, towards zero, at a divisor above 0; the callers test the divisor
unfoldable pub int_div : ℤ → ℕ → ℤ
int_div (pos n) d = pos (n / d)
int_div (negsuc n) d = sub_ℕ 0 (suc n / d)

-- `time.Time.Sub`: the difference, held at the ends of `Duration`
unfoldable pub time_sub : ℤ → ℤ → ℤ
time_sub a b =
    let z = sub_ℕ (pos_part a + neg_part b) (neg_part a + pos_part b) in
    if leb half_word (pos_part z)
    then pos (half_word - 1)
    else if ltb half_word (neg_part z)
    then negsuc (half_word - 1)
    else z

-- Counting up does not wrap below 2^63.
pub int_add_one : (n : ℕ) → suc n < half_word → int_add (pos n) (pos 1) ≡ pos (suc n)
unfolding int_add wrap
int_add_one n h = ground arith

div_mono : (a b d : ℕ) → 0 < d → a ≤ b → a / d ≤ b / d
div_mono a b d p h = (le-div_iff_mul-le p).1 (le_trans (div-mul-le_self a d) h)

pub int_div_mono : (a b : ℤ) (d : ℕ) → 0 < d → a ≤ℤ b → int_div a d ≤ℤ int_div b d
unfolding int_div
int_div_mono (pos a) (pos b) d p h = ground (arith, div_mono a b d p)
int_div_mono (pos a) (negsuc b) d p h = absurd (omega arith)
int_div_mono (negsuc a) (pos b) d p h = ground arith
int_div_mono (negsuc a) (negsuc b) d p h = ground (arith, div_mono (suc b) (suc a) d p)

-- A quotient reaches `n` exactly when the dividend reaches `n * d`.
pub int_div_reaches :
    (t : ℤ) (d n : ℕ) → 0 < d → 0 < n → (pos n ≤ℤ int_div t d) ↔ (pos (n * d) ≤ℤ t)
unfolding int_div
int_div_reaches (pos m) d n p q =
    let (there, back) = le-div_iff_mul-le {x = n} {y = m} p in
    (λ h. omega (arith, there (omega arith)), λ h. omega (arith, back (omega arith)))
int_div_reaches (negsuc m) d n p q =
    (λ h. absurd (ground arith), λ h. absurd (ground (arith, n * d)))
