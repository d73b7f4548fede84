-- ===== src/AstToTac/Body.antt =====
-- The code of a statement as a function of the counters, and what it does when it is run.
use mathlib.Core.Bool.{and-eq-true_iff}
use cleric.Common.{
  ℕ, ◌≤◌, ◌≡◌, refl, ◌∙◌, Bool, true, false, ◌&&◌, Option, none, some, List, [], ◌∷◌, ◌++◌,
  append_assoc, All, All-append, arith,
}
use cleric.Common.Int.{ℤ}
use cleric.Ast.{AstNode, Nodes, return_stmt, block, nil, cons}
use cleric.Source.{
  eval, Ending, no_value, falls_through, ending, and_then, run_statement, run_items,
}
use cleric.Tac.{TacOperand, TacInstruction, ret}
use cleric.Tac.Machine.{Temps, State, at, Outcome, fault, execute, step, Runs, halts}
use cleric.AstToTac.{Context, emit, visit_statement, visit_items}
use cleric.AstToTac.Gen.{Gen, gen, is_supported, gen-Follows, add_all, add_all-append}
use cleric.AstToTac.Labels.{LabelIn, gen-IsWithin, widen}
use cleric.AstToTac.Arrival.{Arrives}
use cleric.AstToTac.Simulation.{gen-Simulates}

pub record Body : Type 0 where
  pub code : List TacInstruction
  pub next_temp : ℕ
  pub next_label : ℕ

abbrev empty_body : ℕ → ℕ → Body
empty_body t l = record { code = []; next_temp = t; next_label = l }

abbrev return_body : Gen → Body
return_body g = record {
  code = g.code ++ ret g.operand ∷ [];
  next_temp = g.next_temp;
  next_label = g.next_label;
}

abbrev sequence : Body → Body → Body
sequence a b = record {
  code = a.code ++ b.code;
  next_temp = b.next_temp;
  next_label = b.next_label;
}

unfoldable mutual
  pub body_of : AstNode → ℕ → ℕ → Body
  body_of (return_stmt e) t l = return_body (gen e t l)
  body_of (block items) t l = items_of items t l
  body_of _ t l = empty_body t l

  pub items_of : Nodes → ℕ → ℕ → Body
  items_of nil t l = empty_body t l
  items_of (cons item items) t l =
      let a = body_of item t l in sequence a (items_of items a.next_temp a.next_label)

-- A return of a supported expression, or a block of such statements.
unfoldable mutual
  pub is_supported_statement : AstNode → Bool
  is_supported_statement (return_stmt e) = is_supported e
  is_supported_statement (block items) = are_supported items
  is_supported_statement _ = false

  pub are_supported : Nodes → Bool
  are_supported nil = true
  are_supported (cons item items) = is_supported_statement item && are_supported items

abbrev pub extend_by : Context → Body → Context
extend_by c b = record {
  current_function = add_all c.current_function b.code;
  next_temp_id = b.next_temp;
  label_counter = b.next_label;
}

mutual
  unfolding visit_statement is_supported_statement body_of emit add_all

  statement-extends :
      (n : AstNode) (c : Context)
      → is_supported_statement n ≡ true
      → visit_statement n c ≡ extend_by c (body_of n c.next_temp_id c.label_counter)
  statement-extends (return_stmt e) c s =
      let f = gen-Follows e s in simp (f.emits, f.valid, add_all-append)
  statement-extends (block items) c s = items-extends items c s
  statement-extends _ c s = cc

  items-extends :
      (ns : Nodes) (c : Context)
      → are_supported ns ≡ true
      → visit_items ns c ≡ extend_by c (items_of ns c.next_temp_id c.label_counter)
  items-extends nil c s = refl
  items-extends (cons n ns) c s =
      let (sn, sns) = (and-eq-true_iff _ _).0 s in
      simp (statement-extends n c sn, add_all-append)
        (items-extends ns (extend_by c (body_of n c.next_temp_id c.label_counter)) sns)

pub visit_statement-extends :
    (n : AstNode) (c : Context)
    → is_supported_statement n ≡ true
    → visit_statement n c ≡ extend_by c (body_of n c.next_temp_id c.label_counter)
visit_statement-extends n c s = statement-extends n c s

abbrev Orders : ℕ → Body → Type 0
Orders l b = (l ≤ b.next_label) × All (LabelIn l b.next_label) b.code

mutual
  unfolding body_of

  body-Orders : (n : AstNode) (t l : ℕ) → Orders l (body_of n t l)
  body-Orders (return_stmt e) t l =
      let w = gen-IsWithin e t l in (w.labels, All-append _ _ _ w.defs (tt, tt))
  body-Orders (block items) t l = items-Orders items t l
  body-Orders _ t l = (omega arith, tt)

  items-Orders : (ns : Nodes) (t l : ℕ) → Orders l (items_of ns t l)
  items-Orders nil t l = (omega arith, tt)
  items-Orders (cons n ns) t l =
      let a = body_of n t l in
      let (p, pd) = body-Orders n t l in
      let (q, qd) = items-Orders ns a.next_temp a.next_label in
      (
        omega arith,
        All-append _ _ _ (widen _ _ _ _ _ pd (omega arith) (omega arith))
            (widen _ _ _ _ _ qd (omega arith) (omega arith)),
      )

pub body_of-Orders : (n : AstNode) (t l : ℕ) → Orders l (body_of n t l)
body_of-Orders n t l = body-Orders n t l

module _ (code : List TacInstruction) where
  -- From `s` the run ends as the statement says, or comes to the code `k`.
  abbrev pub Continues : List TacInstruction → State → Ending → Type 0
  Continues k s (Ending.returned v) = Runs code (Outcome.returned v) s
  Continues k s no_value = Runs code fault s
  Continues k s falls_through = (σ : Temps) × ((r : Outcome) → Runs code r (at k σ) → Runs code r s)

  return-Continues :
      (t : ℕ) (op : TacOperand) (k : List TacInstruction) (σ : Temps) (s : State) (m : Option ℤ)
      → Arrives code t op (ret op ∷ k) σ s m
      → Continues k s (ending m)
  unfolding step execute
  return-Continues t op k σ s none h = h
  return-Continues t op k σ s (some v) (σ₁, e, ag, go) = go (Outcome.returned v) (halts (rw e))

  and_then-Continues :
      (k k₁ : List TacInstruction) (s : State) (r q : Ending)
      → Continues k₁ s r
      → ((σ : Temps) → Continues k (at k₁ σ) q)
      → Continues k s (and_then r q)
  and_then-Continues k k₁ s (Ending.returned v) q h next = h
  and_then-Continues k k₁ s no_value q h next = h
  and_then-Continues k k₁ s falls_through (Ending.returned v) (σ, go) next = go _ (next σ)
  and_then-Continues k k₁ s falls_through no_value (σ, go) next = go _ (next σ)
  and_then-Continues k k₁ s falls_through falls_through (σ, go) next =
      let (σ₂, go₂) = next σ in (σ₂, λ r h. go r (go₂ r h))

  abbrev pub Plays : (ℕ → ℕ → Body) → Ending → Type 0
  Plays b q =
      (t l : ℕ) (pre k : List TacInstruction)
      → code ≡ pre ++ ((b t l).code ++ k)
      → All (LabelIn 0 l) pre
      → (σ : Temps) → Continues k (at ((b t l).code ++ k) σ) q

  return-Plays :
      (e : AstNode)
      → is_supported e ≡ true
      → Plays (λ t l. return_body (gen e t l)) (ending (eval e))
  return-Plays e s t l pre k here hp σ =
      let g = gen e t l in
      rw (append_assoc g.code (ret g.operand ∷ []) k) (
        return-Continues t g.operand k σ (at (g.code ++ ret g.operand ∷ k) σ) (eval e)
          (gen-Simulates code e s t l pre (ret g.operand ∷ k) (here ∙ simp append_assoc) hp σ))

  mutual
    unfolding is_supported_statement body_of run_statement

    statement-Plays :
        (n : AstNode) → is_supported_statement n ≡ true → Plays (body_of n) (run_statement n)
    statement-Plays (return_stmt e) s = return-Plays e s
    statement-Plays (block items) s = items-Plays items s
    statement-Plays _ s = cc

    items-Plays : (ns : Nodes) → are_supported ns ≡ true → Plays (items_of ns) (run_items ns)
    items-Plays nil s t l pre k here hp σ = (σ, λ r h. h)
    items-Plays (cons n ns) s t l pre k here hp σ =
        let (sn, sns) = (and-eq-true_iff _ _).0 s in
        let a = body_of n t l in
        let b = items_of ns a.next_temp a.next_label in
        let (p, pd) = body_of-Orders n t l in
        let here' : code ≡ pre ++ (a.code ++ (b.code ++ k)) = here ∙ simp append_assoc in
        rw (append_assoc a.code b.code k) (
          and_then-Continues k (b.code ++ k) (at (a.code ++ (b.code ++ k)) σ) (run_statement n)
            (run_items ns) (statement-Plays n sn t l pre (b.code ++ k) here' hp σ)
            (items-Plays ns sns a.next_temp a.next_label (pre ++ a.code) k
              (here' ∙ simp append_assoc)
              (All-append _ pre a.code (widen 0 l 0 a.next_label pre hp (omega arith) p)
                (widen l a.next_label 0 a.next_label a.code pd (omega arith) (omega arith)))))

  pub body_of-Plays :
      (n : AstNode) → is_supported_statement n ≡ true → Plays (body_of n) (run_statement n)
  body_of-Plays n s = statement-Plays n s
