-- ===== src/StringBuffer/Doubling.antt =====
-- The loop of ensure_capacity in src/strings/strings.c that doubles a capacity.
use cleric.Common.{
  ℕ, zero, suc, ◌*◌, ◌%◌, ◌^◌, ◌≤◌, ◌<◌, ◌≡◌, refl, ◌∙◌, true, false, ltb, leb, arith, Bool-cases,
  inl, inr, ltb→lt,
}
use cleric.StringBuffer.{Grown, grow}

-- So many doublings.
abbrev pub doubled : ℕ → ℕ → ℕ
doubled zero n = n
doubled (suc f) n = doubled f (n * 2)

pub doubled_mono : (f m n : ℕ) → m ≤ n → doubled f m ≤ doubled f n
doubled_mono zero m n h = h
doubled_mono (suc f) m n h = doubled_mono f (m * 2) (n * 2) (omega arith)

-- A pass that doubles.
grow-step :
    (fuel capacity required n : ℕ)
    → required < 2 ^ 62
    → capacity ≤ n
    → n < required
    → grow (suc fuel) capacity required n ≡ grow fuel capacity required (n * 2)
unfolding grow
grow-step fuel capacity required n small above below =
    let more : leb required n ≡ false = ground arith in
    let exact : n * 2 % 2 ^ 64 ≡ n * 2 = omega arith in
    let keeps : ltb (n * 2) capacity ≡ false = ground arith in rw (more, exact, keeps) refl

grow-now :
    (fuel capacity required n : ℕ)
    → ltb n required ≡ false
    → grow (suc fuel) capacity required n ≡ Grown.to n
unfolding grow
grow-now fuel capacity required n h =
    let enough : leb required n ≡ true = ground arith in rw enough refl

-- The loop ends at a capacity that is enough, and less than twice what is required.
pub grow-ends :
    (fuel capacity required n : ℕ)
    → required < 2 ^ 62
    → capacity ≤ n
    → n < required * 2
    → required ≤ doubled fuel n
    → (times : ℕ) × (grow (suc fuel) capacity required n ≡ Grown.to (doubled times n))
      × (required ≤ doubled times n)
      × (doubled times n < required * 2)
grow-ends zero capacity required n small above below reach =
    (0, grow-now zero capacity required n (ground arith), reach, below)
grow-ends (suc fuel) capacity required n small above below reach =
    elim (Bool-cases (ltb n required)) [
      | inl e ↦
          let less = ltb→lt n required e in
          let (times, ends, enough, near) =
            grow-ends fuel capacity required (n * 2) small (omega arith) (omega arith) reach in
          (
            suc times,
            grow-step (suc fuel) capacity required n small above less ∙ ends,
            enough,
            near,
          )
      | inr e ↦ (0, grow-now (suc fuel) capacity required n e, ground arith, below)
    ]
