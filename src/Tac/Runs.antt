-- ===== src/Tac/Runs.antt =====
-- A run of the machine as a derivation, and as a computation with fuel.
use cleric.Common.{ℕ, zero, suc, ◌≤◌, ◌≡◌, some, List, arith}
use cleric.Tac.{TacInstruction}
use cleric.Tac.Machine.{State, Outcome, running, halted, step, Runs, halts, goes, run}

module _ (code : List TacInstruction) (r : Outcome) where
  run-halted : (s : State) (m : ℕ) → 1 ≤ m → step code s ≡ halted r → run m code s ≡ some r
  unfolding run
  run-halted s zero h e = absurd (omega arith)
  run-halted s (suc m) h e = rw (e, run)

  run-running :
      (s t : State) (n m : ℕ)
      → suc n ≤ m
      → step code s ≡ running t
      → ((k : ℕ) → n ≤ k → run k code t ≡ some r)
      → run m code s ≡ some r
  unfolding run
  run-running s t n zero h e next = absurd (omega arith)
  run-running s t n (suc m) h e next = rw (e, run) (next m (omega arith))

  -- With enough fuel the computation has the outcome of the derivation.
  pub Runs-run : {s : State} → Runs code r s → (n : ℕ) × ((m : ℕ) → n ≤ m → run m code s ≡ some r)
  Runs-run (halts {s} e) = (1, λ m h. run-halted s m h e)
  Runs-run (goes {s} {t} e next) =
      let (n, go) = Runs-run next in (suc n, λ m h. run-running s t n m h e go)
