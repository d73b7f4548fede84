-- ===== src/Codegen/Returns.antt =====
-- What src/codegen/codegen.c makes of code behind a return.
use cleric.Common.{
  ℕ, ◌+◌, ◌-◌, ◌*◌, ◌≤◌, ◌≡◌, refl, sym, ◌∙◌, ap, true, false, Option, none, some, List, [], ◌∷◌,
  ◌++◌, append_assoc, All, All-append, arith, Bool-cases, inl, inr,
}
use cleric.Common.Int.{ℤ}
use cleric.Common.Text.{Text, text_eq}
use cleric.Tac.{TacInstruction, TacFunction, label_def, label, ret}
use cleric.Tac.Machine as Tac
use cleric.Tac.Machine.{Outcome, at, no_temps, find_label}
use cleric.Codegen.{generate_tac_function, prologue, epilogue}
use cleric.Codegen.Asm.{AsmLine}
use cleric.Codegen.Correct.{
  follows, EndsInReturn-IsLegal, HasResult, EndsAs, saved, generates, finishes, enters,
  no_temps-Related,
}
use cleric.Codegen.Encoding.{max_places, IsLegal}
use cleric.Codegen.Lines.{all_lines, lines_of}
use cleric.Codegen.Machine.{Cpu, Runs, find_line}
use cleric.Codegen.Simulation.{Next}
use cleric.Codegen.Targets.{EndsInReturn, find_line-all_lines, lines_of-Skips, is_label_def}

all_lines-append : (is k : List TacInstruction) → all_lines (is ++ k) ≡ all_lines is ++ all_lines k
all_lines-append [] k = refl
all_lines-append (i ∷ is) k =
    ap (λ t. lines_of i ++ t) (all_lines-append is k)
    ∙ sym (append_assoc (lines_of i) (all_lines is) (all_lines k))

behind-find_line :
    (x : Text) (i : TacInstruction) (is : List TacInstruction) (post : List AsmLine)
    → is_label_def i ≡ false
    → find_line x (all_lines (i ∷ is) ++ post) ≡ find_line x (all_lines is ++ post)
behind-find_line x i is post h =
    rw (append_assoc (lines_of i) (all_lines is) post) (lines_of-Skips i h x (all_lines is ++ post))

-- A label that the code does not define is not found in its lines.
find_line-absent :
    (d : ℕ) (x : Text) (is : List TacInstruction) (post : List AsmLine)
    → EndsInReturn d is
    → find_label x is ≡ none
    → find_line x (all_lines is ++ post) ≡ find_line x post
unfolding find_label find_line
find_line-absent d x [] post p e = absurd p
find_line-absent d x (label_def (label y) ∷ is) post (p, ps) e = elim (Bool-cases (text_eq y x)) [
  | inl t ↦ let f : ◌≡◌ {A = Option (List TacInstruction)} (some is) none = rw t at e in absurd (cc)
  | inr t ↦ rw t (find_line-absent d x is post ps (rw t at e))
]
find_line-absent d x (label_def _ ∷ is) post (p, ps) e = absurd p
find_line-absent d x (ret src ∷ is) post (p, q) e = rw q refl
find_line-absent d x (i ∷ is) post (p, ps) e =
    behind-find_line x i is post refl ∙ find_line-absent d x is post ps e

generates_both :
    (func : TacFunction) (d : ℕ) (is k : List TacInstruction)
    → func.instructions ≡ is ++ k
    → d ≤ max_places
    → All (IsLegal d) func.instructions
    → generate_tac_function func []
      ≡ (true, prologue func ++ (all_lines is ++ (all_lines k ++ epilogue func)))
generates_both func d is k parts small legal =
    let body : all_lines func.instructions ≡ all_lines is ++ all_lines k =
      ap all_lines parts ∙ all_lines-append is k in
    generates func d small legal
    ∙ ap (λ ls. (true, prologue func ++ ls))
        (ap (λ ls. ls ++ epilogue func) body
          ∙ append_assoc (all_lines is) (all_lines k) (epilogue func))

-- Two pieces of code that each end in their only return, with labels of their own.
module _ (d : ℕ) (is k : List TacInstruction) (first : EndsInReturn d is)
    (second : EndsInReturn d k)
    (apart : (x : Text) (j : List TacInstruction)
      → find_label x k ≡ some j
      → find_label x is ≡ none) where
  -- For a function of two pieces of legal instructions in a frame of `d` places, at most 2^28 - 1,
  -- where each piece ends in its only return, no label of the second is one of the first, the first,
  -- run apart, returns a value, and the second, run apart, gives a value or a fault:
  -- generate_tac_function succeeds, and a call of the lines that it generates, with room for the
  -- frame on the stack, runs on into the second piece and ends as that one does, whatever the first
  -- returned.
  pub generate_tac_function-continues :
      (func : TacFunction)
      → func.instructions ≡ is ++ k
      → d ≤ max_places
      → (u : ℤ) (r : Outcome) → HasResult r
      → Tac.Runs is (Outcome.returned u) (at is no_temps)
      → Tac.Runs k r (at k no_temps)
      → (m : Cpu) → d * 8 + 8 ≤ m.rsp
      → (lines : List AsmLine) × (generate_tac_function func [] ≡ (true, lines))
        × Runs lines (EndsAs m r) (record m { rest = lines })
  unfolding generate_tac_function prologue find_line
  generate_tac_function-continues func parts small u r good one two m room =
      let post = epilogue func in
      let behind = all_lines k ++ post in
      let code = prologue func ++ (all_lines is ++ behind) in
      let base = m.rsp - 8 in
      let inside : d * 8 ≤ base = omega arith in
      let next : Next code (EndsAs m r) base d inside (saved m) behind no_temps =
        follows k code post (EndsAs m r) base d inside (saved m) second
          (λ x j e.
            find_line-absent d x is behind first (apart x j e)
            ∙ (find_line-all_lines d x post k j second e).0)
          r (at k no_temps) two second (finishes k code func d m inside r (omega arith) good) in
      let start =
        follows is code behind (EndsAs m r) base d inside (saved m) first
          (λ x j e. (find_line-all_lines d x behind is j first e).0) (Outcome.returned u)
          (at is no_temps) one first
          (λ n frame kept e. next n (no_temps-Related base d (saved m) n frame kept)) in
      let legal =
        All-append _ is k (EndsInReturn-IsLegal d is first) (EndsInReturn-IsLegal d k second) in
      (
        code,
        generates_both func d is k parts small (rw parts legal),
        enters func code _ (EndsAs m r) d m inside start,
      )
