-- ===== src/Common/Int.antt =====
-- The C type `int` as a signed integer, and what the operators of the compiled language do on it:
-- results outside the 32 bits wrap, as the target's instructions do; division truncates and has no
-- value at a zero divisor or where the quotient does not fit.
use cleric.Common.Text.{Text, decimal}
use cleric.Common.{
  ◌∷◌, ℕ, suc, ◌+◌, ◌-◌, ◌*◌, ◌/◌, ◌%◌, ◌^◌, ◌<◌, ◌≡◌, Bool, not, ◌&&◌, arith, ltb, leb, ◌==◌,
  if◌then◌else◌,
}

-- `negsuc n` is -(n + 1).
pub data ℤ : Type 0 where
  pos : ℕ → ℤ
  negsuc : ℕ → ℤ

abbrev pub pos_part : ℤ → ℕ
pos_part (pos n) = n
pos_part (negsuc n) = 0

abbrev pub neg_part : ℤ → ℕ
neg_part (pos n) = 0
neg_part (negsuc n) = suc n

-- a - b, as an integer.
abbrev pub sub_ℕ : ℕ → ℕ → ℤ
sub_ℕ a b = if leb b a then pos (a - b) else negsuc (b - a - 1)

infixl 65 ◌+ℤ◌ ◌-ℤ◌
infixl 70 ◌*ℤ◌
infix 50 ◌==ℤ◌
unfoldable pub ◌+ℤ◌ : ℤ → ℤ → ℤ
a +ℤ b = sub_ℕ (pos_part a + pos_part b) (neg_part a + neg_part b)

unfoldable pub ◌-ℤ◌ : ℤ → ℤ → ℤ
a -ℤ b = sub_ℕ (pos_part a + neg_part b) (neg_part a + pos_part b)

unfoldable pub ◌*ℤ◌ : ℤ → ℤ → ℤ
a *ℤ b =
    sub_ℕ (pos_part a * pos_part b + neg_part a * neg_part b)
      (pos_part a * neg_part b + neg_part a * pos_part b)

abbrev pub ltb_ℤ : ℤ → ℤ → Bool
ltb_ℤ a b = ltb (pos_part a + neg_part b) (pos_part b + neg_part a)

abbrev pub ◌==ℤ◌ : ℤ → ℤ → Bool
a ==ℤ b = (pos_part a == pos_part b) && (neg_part a == neg_part b)

-- The bitwise complement, -a - 1.
abbrev pub complement_ℤ : ℤ → ℤ
complement_ℤ (pos n) = negsuc n
complement_ℤ (negsuc n) = pos n

-- The value that 32 bits of two's complement keep.
abbrev pub IsInt32 : ℤ → Type 0
IsInt32 (pos n) = n < 2 ^ 31
IsInt32 (negsuc n) = n < 2 ^ 31

wrap_ℕ : ℕ → ℤ
wrap_ℕ n = if ltb (n % 2 ^ 32) (2 ^ 31) then pos (n % 2 ^ 32) else negsuc (2 ^ 32 - n % 2 ^ 32 - 1)

unfoldable pub wrap : ℤ → ℤ
unfolding wrap_ℕ
wrap (pos n) = wrap_ℕ n
wrap (negsuc n) = complement_ℤ (wrap_ℕ n)

pub wrap-IsInt32 : (a : ℤ) → IsInt32 (wrap a)
unfolding wrap
wrap-IsInt32 (pos n) = ground arith
wrap-IsInt32 (negsuc n) = ground arith

pub wrap_of_IsInt32 : (a : ℤ) → IsInt32 a → wrap a ≡ a
unfolding wrap
wrap_of_IsInt32 (pos n) h = ground arith
wrap_of_IsInt32 (negsuc n) h = ground arith

abbrev pub truth : Bool → ℤ
truth b = if b then pos 1 else pos 0

abbrev pub is_zero : ℤ → Bool
is_zero a = a ==ℤ pos 0

-- The absolute value, and an integer of the opposite sign.
abbrev pub nat_abs : ℤ → ℕ
nat_abs a = pos_part a + neg_part a

abbrev pub neg_ℕ : ℕ → ℤ
neg_ℕ n = sub_ℕ 0 n

-- Truncated division: the quotient rounds towards zero, the remainder has the dividend's sign.
unfoldable pub quotient : ℤ → ℤ → ℤ
quotient (pos a) (pos b) = pos (a / b)
quotient (pos a) (negsuc b) = neg_ℕ (a / suc b)
quotient (negsuc a) (pos b) = neg_ℕ (suc a / b)
quotient (negsuc a) (negsuc b) = pos (suc a / suc b)

unfoldable pub remainder : ℤ → ℤ → ℤ
remainder (pos a) b = pos (a % nat_abs b)
remainder (negsuc a) b = neg_ℕ (suc a % nat_abs b)

-- The division has a value: the divisor is not 0 and the quotient fits.
unfoldable pub divides_well : ℤ → ℤ → Bool
divides_well a b = not (is_zero b) && (wrap (quotient a b) ==ℤ quotient a b)

-- sprintf at `%d`.
unfoldable pub int_text : ℤ → Text
int_text (pos n) = decimal n
int_text (negsuc n) = b'-' ∷ decimal (suc n)
