-- ===== src/AstToTac/Arrival.antt =====
-- Runs of emitted code up to a point behind it, and how such runs are put together.
use cleric.Common.{ℕ, ◌<◌, ◌≤◌, ◌≡◌, refl, ◌∙◌, Option, none, some, List, ◌∷◌, ◌++◌, All, arith}
use cleric.Common.Int.{ℤ}
use cleric.Tac.{TacOperand, const, temp, label, invalid, TacInstruction}
use cleric.Tac.Machine.{
  Temps, State, at, Outcome, fault, running, read, update, assign_or_fault, execute, step, Runs,
  halts, goes,
}
use cleric.Source.{◌>>=◌}
use cleric.AstToTac.Gen.{Gens}
use cleric.AstToTac.Labels.{LabelIn, IsBelow}

-- The temporaries older than `t` have the same values.
abbrev pub Agree : ℕ → Temps → Temps → Type 0
Agree t σ' σ = (i : ℕ) → i < t → σ' i ≡ σ i

pub read-Agree :
    (t : ℕ) (op : TacOperand) (σ' σ : Temps) → IsBelow t op → Agree t σ' σ → read σ' op ≡ read σ op
read-Agree t (const v) σ' σ b h = refl
read-Agree t (temp n) σ' σ b h = h n b
read-Agree t (label x) σ' σ b h = elim b [ ]
read-Agree t invalid σ' σ b h = elim b [ ]

pub update_self : (σ : Temps) (d : ℕ) (v : ℤ) → update σ d v d ≡ some v
update_self σ d v = ground arith

pub update-Agree :
    (t d : ℕ) (σ' σ : Temps) (v : ℤ) → t ≤ d → Agree t σ' σ → Agree t (update σ' d v) σ
update-Agree t d σ' σ v p h i q = ground (arith, h i q)

module _ (code : List TacInstruction) where
  -- From `s` the machine comes to the code `k` with the value in `op`, or faults without one.
  abbrev pub Arrives : ℕ → TacOperand → List TacInstruction → Temps → State → Option ℤ → Type 0
  Arrives t op k σ s none = Runs code fault s
  Arrives t op k σ s (some v) =
      (σ' : Temps) × (read σ' op ≡ some v)
      × Agree t σ' σ
      × ((r : Outcome) → Runs code r (at k σ') → Runs code r s)

  abbrev pub Simulates : Gens → Option ℤ → Type 0
  Simulates g v =
      (t l : ℕ) (pre k : List TacInstruction)
      → code ≡ pre ++ ((g t l).code ++ k)
      → All (LabelIn 0 l) pre
      → (σ : Temps) → Arrives t (g t l).operand k σ (at ((g t l).code ++ k) σ) v

  pub Arrives-bind :
      (t t₁ : ℕ) (op op₁ : TacOperand) (k k₁ : List TacInstruction) (σ : Temps) (s : State)
      (m : Option ℤ) (f : ℤ → Option ℤ)
      → Arrives t₁ op₁ k₁ σ s m
      → ((a : ℤ) (σ₁ : Temps)
          → read σ₁ op₁ ≡ some a
          → Agree t₁ σ₁ σ
          → Arrives t op k σ (at k₁ σ₁) (f a))
      → Arrives t op k σ s (m >>= f)
  Arrives-bind t t₁ op op₁ k k₁ σ s none f h next = h
  Arrives-bind t t₁ op op₁ k k₁ σ s (some a) f (σ₁, e, ag, go) next = back (f a) (next a σ₁ e ag)
    where
      back : (v : Option ℤ) → Arrives t op k σ (at k₁ σ₁) v → Arrives t op k σ s v
      back none h = go fault h
      back (some v) (σ₂, e₂, ag₂, go₂) = (σ₂, e₂, ag₂, λ r h. go r (go₂ r h))

  -- An arrival measured against earlier temporaries.
  pub Arrives-since :
      (t t₁ : ℕ) (op : TacOperand) (k : List TacInstruction) (σ σ₁ : Temps) (s : State)
      (m : Option ℤ)
      → t ≤ t₁
      → Agree t σ₁ σ
      → Arrives t₁ op k σ₁ s m
      → Arrives t op k σ s m
  Arrives-since t t₁ op k σ σ₁ s none p ag h = h
  Arrives-since t t₁ op k σ σ₁ s (some v) p ag (σ₂, e, ag₂, go) =
      (σ₂, e, λ i q. ag₂ i (omega arith) ∙ ag i q, go)

  -- One more instruction that stores its value in the temporary `d`.
  pub store :
      (t d : ℕ) (i : TacInstruction) (k : List TacInstruction) (σ σ₁ : Temps) (v : Option ℤ)
      → t ≤ d
      → Agree t σ₁ σ
      → execute code i (at k σ₁) ≡ assign_or_fault (temp d) v (at k σ₁)
      → Arrives t (temp d) k σ (at (i ∷ k) σ₁) v
  unfolding step
  store t d i k σ σ₁ none p ag e = halts e
  store t d i k σ σ₁ (some v) p ag e =
      (update σ₁ d v, update_self σ₁ d v, update-Agree t d σ₁ σ v p ag, λ r h. goes e h)

  pub step_to :
      (i : TacInstruction) (k : List TacInstruction) (σ : Temps) (t : State) (r : Outcome)
      → execute code i (at k σ) ≡ running t
      → Runs code r t
      → Runs code r (at (i ∷ k) σ)
  unfolding step
  step_to i k σ t r e h = goes e h

  pub Arrives-step :
      (t : ℕ) (op : TacOperand) (k : List TacInstruction) (σ : Temps) (s s' : State) (m : Option ℤ)
      → ((r : Outcome) → Runs code r s' → Runs code r s)
      → Arrives t op k σ s' m
      → Arrives t op k σ s m
  Arrives-step t op k σ s s' none go h = go fault h
  Arrives-step t op k σ s s' (some v) go (σ₂, e, ag, go₂) = (σ₂, e, ag, λ r h. go r (go₂ r h))
