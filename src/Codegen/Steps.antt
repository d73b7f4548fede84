-- ===== src/Codegen/Steps.antt =====
-- Lines of src/codegen/codegen.c one at a time: how a run goes on behind a line, and how the frame
-- holds the temporaries of three-address code.
use mathlib.Core.Option
use cleric.Common.{
  ap, ℕ, ◌+◌, ◌-◌, ◌*◌, ◌<◌, ◌≤◌, ◌≡◌, refl, Bool, true, false, some, List, ◌∷◌, ◌==◌, arith,
  Bool-cases, inl, inr,
}
use cleric.Common.Int.{
  ℤ, pos, IsInt32, truth, quotient, remainder, divides_well, wrap, ◌+ℤ◌, ◌-ℤ◌, ◌*ℤ◌,
}
use cleric.Tac.{TacOperand, const, temp, label, invalid, BinaryType}
use cleric.Tac.Machine.{Temps, read, update, binary_value}
use cleric.Codegen.{arith_line}
use cleric.Codegen.Asm.{
  AsmOperand, reg, eax, ecx, r10d, idivl, Condition, AsmLine, movl, cmpl, set_al, movzbl,
}
use cleric.Codegen.Encoding.{encode, IsValue}
use cleric.Codegen.Machine.{
  Memory, Cpu, End, load, write, address, holds, perform, step, Runs, goes, stops, crashed, divide,
  sign, is_imm,
}
use cleric.Codegen.Values.{movzbl-bit, dividend-sign}

-- The frame at `base` of a machine that has the temporaries below `d` in it, and above it what it
-- had at the beginning.
pub record Related (base d : ℕ) (above : Memory) (σ : Temps) (rbp : ℕ) (memory : Memory)
    : Type 0 where
  pub frame : rbp ≡ base
  pub kept : (x : ℕ) → base ≤ x → memory x ≡ above x
  pub held : (n : ℕ) → n < d → (v : ℤ) → σ n ≡ some v → memory (base - (n + 1) * 8) ≡ v
  pub fits : (n : ℕ) → n < d → (v : ℤ) → σ n ≡ some v → IsInt32 v

pub some-injective : {a b : ℤ} → some a ≡ some b → a ≡ b
some-injective {a} e = ap (λ o. Option.get_or o a) e

module _ (base d : ℕ) (room : d * 8 ≤ base) (above : Memory) (σ : Temps) where
  pub load-encode :
      (o : TacOperand) (v : ℤ) (m : Cpu)
      → IsValue d o
      → read σ o ≡ some v
      → Related base d above σ m.rbp m.memory
      → load m (encode o) ≡ some v
  load-encode (const w) v m i e r = e
  load-encode (temp n) v m i e r = rw (r.frame, r.held n i v e) refl
  load-encode (label x) v m i e r = absurd i
  load-encode invalid v m i e r = absurd i

  pub value-IsInt32 :
      (o : TacOperand) (v : ℤ) (m : Cpu)
      → IsValue d o
      → read σ o ≡ some v
      → Related base d above σ m.rbp m.memory
      → IsInt32 v
  value-IsInt32 (const w) v m i e r = rw (some-injective e) at i
  value-IsInt32 (temp n) v m i e r = r.fits n i v e
  value-IsInt32 (label x) v m i e r = absurd i
  value-IsInt32 invalid v m i e r = absurd i

  update-IsInt32 :
      (n : ℕ) (w : ℤ)
      → IsInt32 w
      → (k : ℕ) (v : ℤ) → update σ n w k ≡ some v
      → (σ k ≡ some v → IsInt32 v)
      → IsInt32 v
  update-IsInt32 n w h k v e f = elim (Bool-cases (n == k)) [
    | inl t ↦ rw (some-injective (rw t at e)) at h
    | inr t ↦ f (rw t at e)
  ]

  pub update-Related :
      (n : ℕ) (w : ℤ) (m : Cpu)
      → n < d
      → IsInt32 w
      → Related base d above σ m.rbp m.memory
      → Related base d above
          (update σ n w)
          m.rbp
          (write m.memory (address m.rbp (pos ((n + 1) * 8))) w)
  update-Related n w m i h r = record {
    frame = r.frame;
    kept = λ x le. ground (arith, r.kept x le, r.frame);
    held = λ k lt v e. ground (arith, r.held k lt v, r.frame);
    fits = λ k lt v e. update-IsInt32 n w h k v e (r.fits k lt v);
  }

-- The operations of addl, subl and imull.
abbrev pub is_arith : BinaryType → Bool
is_arith BinaryType.add = true
is_arith BinaryType.sub = true
is_arith BinaryType.mul = true
is_arith _ = false

module _ (code : List AsmLine) (P : End → Type 0) where
  -- The run goes on at the lines `k`.
  abbrev pub Go : List AsmLine → Cpu → Type 0
  Go k m = Runs code P (record m { rest = k })

  pub load_eax :
      (m : Cpu) (o : AsmOperand) (v : ℤ) (k : List AsmLine)
      → load (record m { rest = k }) o ≡ some v
      → Go k (record m { a = v })
      → Go (movl o (reg eax) ∷ k) m
  unfolding step perform
  load_eax m o v k e h = goes (rw e refl) h

  pub load_r10 :
      (m : Cpu) (o : AsmOperand) (v : ℤ) (k : List AsmLine)
      → load (record m { rest = k }) o ≡ some v
      → Go k (record m { r10 = v })
      → Go (movl o (reg r10d) ∷ k) m
  unfolding step perform
  load_r10 m o v k e h = goes (rw e refl) h

  pub load_ecx :
      (m : Cpu) (o : AsmOperand) (v : ℤ) (k : List AsmLine)
      → load (record m { rest = k }) o ≡ some v
      → Go k (record m { c = v })
      → Go (movl o (reg ecx) ∷ k) m
  unfolding step perform
  load_ecx m o v k e h = goes (rw e refl) h

  pub compare :
      (m : Cpu) (o : AsmOperand) (v : ℤ) (k : List AsmLine)
      → load (record m { rest = k }) o ≡ some v
      → Go k (record m { left = m.a; right = v })
      → Go (cmpl o ∷ k) m
  unfolding step perform
  compare m o v k e h = goes (rw e refl) h

  pub arith_eax :
      (op : BinaryType) (m : Cpu) (o : AsmOperand) (v : ℤ) (w : ℤ) (k : List AsmLine)
      → is_arith op ≡ true
      → load (record m { rest = k }) o ≡ some v
      → binary_value op m.a v ≡ some w
      → Go k (record m { a = w })
      → Go (arith_line op o ∷ k) m
  unfolding step perform arith_line binary_value
  arith_eax BinaryType.add m o v w k t e p h =
      goes {n = record m { rest = k; a = wrap (m.a +ℤ v) }} (rw e refl) (rw (some-injective p) h)
  arith_eax BinaryType.sub m o v w k t e p h =
      goes {n = record m { rest = k; a = wrap (m.a -ℤ v) }} (rw e refl) (rw (some-injective p) h)
  arith_eax BinaryType.mul m o v w k t e p h =
      goes {n = record m { rest = k; a = wrap (m.a *ℤ v) }} (rw e refl) (rw (some-injective p) h)
  arith_eax _ m o v w k t e p h = cc

  -- %al is 1 where the condition holds, and %eax is %al.
  pub set_eax :
      (c : Condition) (m : Cpu) (k : List AsmLine)
      → Go k (record m { a = truth (holds c m.left m.right) })
      → Go (set_al c ∷ movzbl ∷ k) m
  unfolding step perform
  set_eax c m k h = goes refl (goes refl (rw (movzbl-bit m.a (holds c m.left m.right)) h))

  -- The division of %eax behind cltd.
  pub divide_eax :
      (m : Cpu) (o : AsmOperand) (v : ℤ) (k : List AsmLine)
      → is_imm o ≡ false
      → IsInt32 m.a
      → load (record m { rest = k; d = sign m.a }) o ≡ some v
      → divides_well m.a v ≡ true
      → Go k (record m { a = quotient m.a v; d = remainder m.a v })
      → Go (idivl o ∷ k) (record m { d = sign m.a })
  unfolding step perform divide
  divide_eax m o v k c i e w h = goes (rw (c, e, dividend-sign m.a i, w) refl) h

  pub divide_crashes :
      (m : Cpu) (o : AsmOperand) (v : ℤ) (k : List AsmLine)
      → is_imm o ≡ false
      → IsInt32 m.a
      → load (record m { rest = k; d = sign m.a }) o ≡ some v
      → divides_well m.a v ≡ false
      → P crashed
      → Go (idivl o ∷ k) (record m { d = sign m.a })
  unfolding step perform divide
  divide_crashes m o v k c i e w h = stops crashed (rw (c, e, dividend-sign m.a i, w) refl) h
