-- ===== src/Codegen/Correct.antt =====
-- A call of the function that src/codegen/codegen.c generates: prologue, instructions, epilogue.
use cleric.Common.{
  ℕ, ◌+◌, ◌-◌, ◌*◌, ◌≤◌, ◌≡◌, refl, true, some, List, [], ◌∷◌, ◌++◌, append_assoc, arith, All, ltb,
}
use cleric.Common.Int.{ℤ, pos}
use cleric.Common.Text.{Text}
use cleric.Tac.{TacInstruction, TacFunction, ret}
use cleric.Tac.Machine as Tac
use cleric.Tac.Machine.{
  Temps, State, at, Outcome, Status, running, halted, fault, fell_off, stuck, with_value, resume,
  jump, assign, assign_or_fault, execute, find_label, no_temps, read, binary_value, taken,
}
use cleric.Codegen.{generate_tac_function, prologue, epilogue, stack_allocation_size}
use cleric.Codegen.Asm.{AsmLine, leave, retq}
use cleric.Codegen.Encoding.{IsLegal, max_places}
use cleric.Codegen.Frame.{frame-IsAligned}
use cleric.Codegen.Lines.{all_lines, generate_instructions-all_lines}
use cleric.Codegen.Machine.{
  Memory, Cpu, End, exited, crashed, find_line, step, perform, Runs, stops, goes, write,
}
use cleric.Codegen.Refinement.{After, advance}
use cleric.Codegen.Simulation.{Next}
use cleric.Codegen.Steps.{Related}
use cleric.Codegen.Staying.{step-Stays}
use cleric.Codegen.Targets.{EndsInReturn, find_line-all_lines}

module _ (c : List TacInstruction) (code post : List AsmLine) (P : End → Type 0) (base d : ℕ)
    (room : d * 8 ≤ base) (above : Memory) (whole : EndsInReturn d c)
    (found : (x : Text) (k : List TacInstruction)
      → find_label x c ≡ some k
      → find_line x code ≡ some (all_lines k ++ post)) where
  pub follows :
      (r : Outcome) (s : State)
      → Tac.Runs c r s
      → EndsInReturn d s.rest
      → After c code post P base d room above (halted r)
      → Next code P base d room above (all_lines s.rest ++ post) s.temps
  follows r s (Tac.halts e) p end =
      advance c code post P base d room above whole found s.rest s.temps p (rw e end)
  follows r s (Tac.goes {t = t} e h) p end =
      advance c code post P base d room above whole found s.rest s.temps p
        (rw e (follows r t h (rw e at (step-Stays d c whole s.rest s.temps p)) end))

-- The lines of a whole function.
abbrev pub function_lines : TacFunction → List AsmLine
function_lines func = prologue func ++ (all_lines func.instructions ++ epilogue func)

pub EndsInReturn-IsLegal :
    (d : ℕ) (is : List TacInstruction) → EndsInReturn d is → All (IsLegal d) is
EndsInReturn-IsLegal d [] p = absurd p
EndsInReturn-IsLegal d (ret src ∷ k) (p, q) = (p, rw q tt)
EndsInReturn-IsLegal d (i ∷ k) (p, ps) = (p, EndsInReturn-IsLegal d k ps)

pub generates :
    (func : TacFunction) (d : ℕ)
    → d ≤ max_places
    → All (IsLegal d) func.instructions
    → generate_tac_function func [] ≡ (true, function_lines func)
unfolding generate_tac_function
generates func d small p =
    rw
      (
        generate_instructions-all_lines d small func.instructions (prologue func) p,
        append_assoc (prologue func) (all_lines func.instructions) (epilogue func),
      )
      refl

epilogue-leave : (func : TacFunction) → epilogue func ≡ leave ∷ retq ∷ []
unfolding epilogue
epilogue-leave func =
    let big : ltb 0 (stack_allocation_size func) ≡ true =
      ground (arith, (frame-IsAligned func).1) in
    rw big refl

-- A run that ends with a value or at a division that has none.
abbrev pub HasResult : Outcome → Type 0
HasResult (Outcome.returned v) = Unit
HasResult fault = Unit
HasResult _ = ⊥

-- The end of a call from the machine `m`. A value is in %eax; the call goes back to the address on
-- top of the stack and takes it off, with %rbp and the callers' part of the stack as they were. A
-- fault is the exception of the division.
abbrev pub EndsAs : Cpu → Outcome → End → Type 0
EndsAs m (Outcome.returned v) (exited to n) =
    (n.a ≡ v)
    × (to ≡ m.memory m.rsp)
    × (n.rsp ≡ m.rsp + 8)
    × (n.rbp ≡ m.rbp)
    × ((x : ℕ) → m.rsp ≤ x → n.memory x ≡ m.memory x)
EndsAs m fault crashed = Unit
EndsAs m _ _ = ⊥

-- The memory once the prologue has saved %rbp.
abbrev pub saved : Cpu → Memory
saved m = write m.memory (m.rsp - 8) (pos m.rbp)

module _ (m : Cpu) (room : 8 ≤ m.rsp) (code : List AsmLine) where
  leaves :
      (v : ℤ) (n : Cpu)
      → n.rbp ≡ m.rsp - 8
      → ((x : ℕ) → m.rsp - 8 ≤ x → n.memory x ≡ saved m x)
      → n.a ≡ v
      → Runs code (EndsAs m (Outcome.returned v)) (record n { rest = leave ∷ retq ∷ [] })
  unfolding step perform
  leaves v n frame kept e =
      let top : n.memory n.rbp ≡ pos m.rbp = ground (arith, kept n.rbp) in
      goes {n = record n { rest = retq ∷ []; rbp = m.rbp; rsp = n.rbp + 8 }} (rw top refl) (
        stops _ refl
          (e, ground (arith, kept (n.rbp + 8)), omega arith, refl, λ x le. ground (arith, kept x)))

pub finishes :
    (c : List TacInstruction) (code : List AsmLine) (func : TacFunction) (d : ℕ) (m : Cpu)
    (room : d * 8 ≤ m.rsp - 8) (r : Outcome)
    → 8 ≤ m.rsp
    → HasResult r
    → After c code (epilogue func) (EndsAs m r) (m.rsp - 8) d room (saved m) (halted r)
finishes c code func d m room (Outcome.returned v) le h =
    λ n frame kept e. rw (epilogue-leave func) (leaves m le code v n frame kept e)
finishes c code func d m room fault le h = tt
finishes c code func d m room _ le h = absurd h

pub no_temps-Related :
    (base d : ℕ) (above : Memory) (m : Cpu)
    → m.rbp ≡ base
    → ((x : ℕ) → base ≤ x → m.memory x ≡ above x)
    → Related base d above no_temps m.rbp m.memory
no_temps-Related base d above m e kept = record {
  frame = e;
  kept = kept;
  held = λ n lt v f. absurd (cc);
  fits = λ n lt v f. absurd (cc);
}

-- The prologue saves %rbp and sets up the frame.
pub enters :
    (func : TacFunction) (code k : List AsmLine) (P : End → Type 0) (d : ℕ) (m : Cpu)
    (room : d * 8 ≤ m.rsp - 8)
    → Next code P (m.rsp - 8) d room (saved m) k no_temps
    → Runs code P (record m { rest = prologue func ++ k })
unfolding step perform prologue
enters func code k P d m room next =
    let n = record m {
      rsp = m.rsp - 8 - stack_allocation_size func;
      rbp = m.rsp - 8;
      memory = saved m;
    } in
    goes refl (
      goes refl (
        goes refl (
          goes refl
            (goes refl (next n (no_temps-Related (m.rsp - 8) d (saved m) n refl (λ x le. refl)))))))

-- For a function of legal instructions whose last one is its only return, in a frame of `d` places,
-- at most 2^28 - 1, generate_tac_function succeeds, and where the run of the three-address code gives
-- a value or a fault, a call of the generated lines with room for the frame on the stack gives the
-- same: the value in %eax, at the return address, with %rsp, %rbp and the callers' part of the stack
-- as the calling convention wants, or the exception of the division.
pub generate_tac_function_refines :
    (func : TacFunction) (d : ℕ)
    → d ≤ max_places
    → EndsInReturn d func.instructions
    → (r : Outcome) → HasResult r
    → Tac.Runs func.instructions r (at func.instructions no_temps)
    → (m : Cpu) → d * 8 + 8 ≤ m.rsp
    → (lines : List AsmLine) × (generate_tac_function func [] ≡ (true, lines))
      × Runs lines (EndsAs m r) (record m { rest = lines })
unfolding prologue find_line
generate_tac_function_refines func d small whole r good runs m room =
    let code = function_lines func in
    let post = epilogue func in
    let inside : d * 8 ≤ m.rsp - 8 = omega arith in
    (
      code,
      generates func d small (EndsInReturn-IsLegal d func.instructions whole),
      enters func code _ (EndsAs m r) d m inside (
          follows func.instructions code post (EndsAs m r) (m.rsp - 8) d inside (saved m) whole
            (λ x k e. (find_line-all_lines d x post func.instructions k whole e).0) r
            (at func.instructions no_temps) runs whole
            (finishes func.instructions code func d m inside r (omega arith) good)),
    )
