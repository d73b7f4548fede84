-- ===== src/Codegen/Values.antt =====
-- The values that the lines of src/codegen/codegen.c compute: bytes, conditions, the dividend of
-- `idivl`, and that all of them fit in 32 bits.
use native.Mathlib.Nat.{mod-le}
use mathlib.Core.Option
use cleric.Common.{
  ℕ, suc, ◌%◌, ◌^◌, ◌<◌, ◌≤◌, ◌≡◌, refl, ap, sym, Bool, true, false, not, ◌&&◌, ◌||◌, none, some,
  arith, bit_and, bit_or, if◌then◌else◌,
}
use cleric.Common.Int.{
  ℤ, pos, negsuc, ◌+ℤ◌, ◌-ℤ◌, ◌*ℤ◌, neg_ℕ, nat_abs, ◌==ℤ◌, complement_ℤ, IsInt32, wrap,
  wrap-IsInt32, truth, is_zero, quotient, remainder, divides_well,
}
use cleric.Tac.{UnaryType, BinaryType, RelationalType}
use cleric.Tac.Machine.{unary_value, binary_value, relational_value}
use cleric.Codegen.{set_instruction}
use cleric.Codegen.Machine.{low_byte, set_low_byte, bit, holds, sign, dividend}

low-set : (v : ℤ) (n : ℕ) → n < 256 → low_byte (set_low_byte v n) ≡ n
low-set (pos k) n h = omega arith
low-set (negsuc k) n h = omega arith

pub movzbl-bit : (v : ℤ) (b : Bool) → pos (low_byte (set_low_byte v (bit b))) ≡ truth b
movzbl-bit v true = ap pos (low-set v 1 (omega arith))
movzbl-bit v false = ap pos (low-set v 0 (omega arith))

pub andb-bits :
    (u v w : ℤ) (x y : Bool)
    → pos (
        low_byte (
          set_low_byte u
            (bit_and (low_byte (set_low_byte v (bit y))) (low_byte (set_low_byte w (bit x))))))
      ≡ truth (x && y)
andb-bits u v w true true =
    rw (low-set v 1 (omega arith), low-set w 1 (omega arith)) (ap pos (low-set u 1 (omega arith)))
andb-bits u v w true false =
    rw (low-set v 0 (omega arith), low-set w 1 (omega arith)) (ap pos (low-set u 0 (omega arith)))
andb-bits u v w false true =
    rw (low-set v 1 (omega arith), low-set w 0 (omega arith)) (ap pos (low-set u 0 (omega arith)))
andb-bits u v w false false =
    rw (low-set v 0 (omega arith), low-set w 0 (omega arith)) (ap pos (low-set u 0 (omega arith)))

pub orb-bits :
    (u v w : ℤ) (x y : Bool)
    → pos (
        low_byte (
          set_low_byte u
            (bit_or (low_byte (set_low_byte v (bit y))) (low_byte (set_low_byte w (bit x))))))
      ≡ truth (x || y)
orb-bits u v w true true =
    rw (low-set v 1 (omega arith), low-set w 1 (omega arith)) (ap pos (low-set u 1 (omega arith)))
orb-bits u v w true false =
    rw (low-set v 0 (omega arith), low-set w 1 (omega arith)) (ap pos (low-set u 1 (omega arith)))
orb-bits u v w false true =
    rw (low-set v 1 (omega arith), low-set w 0 (omega arith)) (ap pos (low-set u 1 (omega arith)))
orb-bits u v w false false =
    rw (low-set v 0 (omega arith), low-set w 0 (omega arith)) (ap pos (low-set u 0 (omega arith)))

pub holds-relational_value :
    (op : RelationalType) (x y : ℤ)
    → truth (holds (set_instruction op) x y) ≡ relational_value op x y
unfolding set_instruction relational_value
holds-relational_value RelationalType.less x y = refl
holds-relational_value RelationalType.greater x y = refl
holds-relational_value RelationalType.less_equal x y = refl
holds-relational_value RelationalType.greater_equal x y = refl
holds-relational_value RelationalType.equal x y = refl
holds-relational_value RelationalType.not_equal x y = refl

-- cltd makes the dividend the value of %eax.
pub dividend-sign : (v : ℤ) → IsInt32 v → dividend (sign v) v ≡ v
unfolding dividend ◌*ℤ◌ ◌+ℤ◌
dividend-sign (pos n) h = ground arith
dividend-sign (negsuc n) h = ground arith

pub truth-IsInt32 : (b : Bool) → IsInt32 (truth b)
truth-IsInt32 true = omega arith
truth-IsInt32 false = omega arith

complement-IsInt32 : (v : ℤ) → IsInt32 v → IsInt32 (complement_ℤ v)
complement-IsInt32 (pos n) h = h
complement-IsInt32 (negsuc n) h = h

eq_of_==ℤ : (a b : ℤ) → (a ==ℤ b) ≡ true → a ≡ b
eq_of_==ℤ (pos m) (pos n) h = ground arith
eq_of_==ℤ (pos m) (negsuc n) h = ground arith
eq_of_==ℤ (negsuc m) (pos n) h = ground arith
eq_of_==ℤ (negsuc m) (negsuc n) h = ground arith

quotient-IsInt32 : (a b : ℤ) → divides_well a b ≡ true → IsInt32 (quotient a b)
unfolding divides_well
quotient-IsInt32 a b h =
    let e : wrap (quotient a b) ≡ quotient a b = eq_of_==ℤ _ _ (ground arith) in
    rw e at (wrap-IsInt32 (quotient a b))

neg_ℕ-IsInt32 : (n : ℕ) → n ≤ 2 ^ 31 → IsInt32 (neg_ℕ n)
neg_ℕ-IsInt32 n h = ground arith

remainder-IsInt32 : (a b : ℤ) → IsInt32 a → IsInt32 (remainder a b)
unfolding remainder
remainder-IsInt32 (pos n) b h = omega (arith, mod-le n (nat_abs b))
remainder-IsInt32 (negsuc n) b h =
    neg_ℕ-IsInt32 (suc n % nat_abs b) (omega (arith, mod-le (suc n) (nat_abs b)))

pub unary-IsInt32 : (op : UnaryType) (v : ℤ) → IsInt32 v → IsInt32 (unary_value op v)
unfolding unary_value
unary-IsInt32 UnaryType.negate v h = wrap-IsInt32 _
unary-IsInt32 UnaryType.complement v h = complement-IsInt32 v h
unary-IsInt32 UnaryType.logical_not v h = truth-IsInt32 _

pub relational-IsInt32 : (op : RelationalType) (x y : ℤ) → IsInt32 (relational_value op x y)
relational-IsInt32 op x y = rw (sym (holds-relational_value op x y)) (truth-IsInt32 _)

pub if_some : (b : Bool) (v w : ℤ) → (if b then some v else none) ≡ some w → (b ≡ true) × (v ≡ w)
if_some true v w e = (refl, ap (λ o. Option.get_or o v) e)
if_some false v w e = absurd (cc)

pub binary-IsInt32 :
    (op : BinaryType) (a b w : ℤ) → IsInt32 a → binary_value op a b ≡ some w → IsInt32 w
unfolding binary_value
binary-IsInt32 BinaryType.add a b w h e =
    rw (ap (λ o. Option.get_or o w) e) at (wrap-IsInt32 (a +ℤ b))
binary-IsInt32 BinaryType.sub a b w h e =
    rw (ap (λ o. Option.get_or o w) e) at (wrap-IsInt32 (a -ℤ b))
binary-IsInt32 BinaryType.mul a b w h e =
    rw (ap (λ o. Option.get_or o w) e) at (wrap-IsInt32 (a *ℤ b))
binary-IsInt32 BinaryType.div a b w h e =
    let (t, q) = if_some _ _ _ e in rw q at (quotient-IsInt32 a b t)
binary-IsInt32 BinaryType.mod_ a b w h e =
    let (t, q) = if_some _ _ _ e in rw q at (remainder-IsInt32 a b h)
binary-IsInt32 BinaryType.logical_and a b w h e =
    rw (ap (λ o. Option.get_or o w) e) at (truth-IsInt32 (not (is_zero a) && not (is_zero b)))
binary-IsInt32 BinaryType.logical_or a b w h e =
    rw (ap (λ o. Option.get_or o w) e) at (truth-IsInt32 (not (is_zero a) || not (is_zero b)))
