-- ===== src/Common/Text.antt =====
-- Texts as byte lists: `strcmp`, and `sprintf` at `%d` for a number that is not negative.
use Prim.Native.Char.{code}
use Prim.Native.String.{String}
use cleric.Common.{
  ℕ, zero, suc, ◌+◌, ◌-◌, ◌*◌, ◌/◌, ◌%◌, ◌<◌, ◌≡◌, refl, ap, ◌∙◌, sym, ◌↔◌, Bool, true, false, ◌&&◌,
  List, [], ◌∷◌, arith, ltb, ◌==◌, if◌then◌else◌, Bool-cases, inl, inr,
}

abbrev pub Text : Type 0
Text = List ℕ

-- The bytes of an ASCII literal. `String` has its own `[]` and `∷`.
abbrev pub codes : String → Text
codes String.[] = []
codes (String.◌∷◌ c s) = code c ∷ codes s

-- strcmp(a, b) == 0
unfoldable pub text_eq : Text → Text → Bool
text_eq [] [] = true
text_eq [] (y ∷ ys) = false
text_eq (x ∷ xs) [] = false
text_eq (x ∷ xs) (y ∷ ys) = (x == y) && text_eq xs ys

pub text_eq_refl : (a : Text) → text_eq a a ≡ true
unfolding text_eq
text_eq_refl [] = refl
text_eq_refl (x ∷ xs) = ground (arith, text_eq_refl xs)

pub eq_of_text_eq : (a b : Text) → text_eq a b ≡ true → a ≡ b
unfolding text_eq
eq_of_text_eq [] [] h = refl
eq_of_text_eq [] (y ∷ ys) h = cc
eq_of_text_eq (x ∷ xs) [] h = cc
eq_of_text_eq (x ∷ xs) (y ∷ ys) h = ground (arith, eq_of_text_eq xs ys)

pub text_eq_iff : (a b : Text) → (text_eq a b ≡ true) ↔ (a ≡ b)
text_eq_iff a b = (eq_of_text_eq a b, λ p. rw p (text_eq_refl b))

pub text_eq-false : (a b : Text) → ¬ (a ≡ b) → text_eq a b ≡ false
text_eq-false a b h = elim (Bool-cases (text_eq a b)) [
  | inl e ↦ absurd (h (eq_of_text_eq a b e))
  | inr e ↦ e
]

-- The digits of `n`, most significant first, in front of `acc`. A number has at most as many
-- digits as its value plus one, which is the fuel that `decimal` gives.
unfoldable pub decimal_loop : ℕ → ℕ → Text → Text
decimal_loop zero n acc = acc
decimal_loop (suc f) n acc =
    let rest = decimal_loop f (n / 10) ((48 + n % 10) ∷ acc) in
    if ltb n 10 then (48 + n % 10) ∷ acc else rest

unfoldable pub decimal : ℕ → Text
unfolding decimal_loop
decimal n = decimal_loop (n + 1) n []

-- The number that a run of digits stands for, after the digits of `a`.
unfoldable pub digits_value : Text → ℕ → ℕ
digits_value [] a = a
digits_value (d ∷ ds) a = digits_value ds (a * 10 + (d - 48))

digits_value-decimal_loop :
    (f n : ℕ) (acc : Text) → n < f → digits_value (decimal_loop f n acc) 0 ≡ digits_value acc n
unfolding decimal_loop digits_value
digits_value-decimal_loop zero n acc h = absurd (omega arith)
digits_value-decimal_loop (suc f) n acc h = elim (Bool-cases (ltb n 10)) [
  | inl e ↦ rw e (ap (digits_value acc) (ground arith))
  | inr e ↦ rw e (
      digits_value-decimal_loop f (n / 10) ((48 + n % 10) ∷ acc) (ground arith)
      ∙ ap (digits_value acc) (omega arith))
]

pub digits_value-decimal : (n : ℕ) → digits_value (decimal n) 0 ≡ n
unfolding decimal digits_value
digits_value-decimal n = digits_value-decimal_loop (n + 1) n [] (omega arith)

pub decimal-injective : (m n : ℕ) → decimal m ≡ decimal n → m ≡ n
decimal-injective m n p =
    sym (digits_value-decimal m) ∙ ap (λ t. digits_value t 0) p ∙ digits_value-decimal n
