-- ===== src/Replacer/Tests.antt =====
-- The replacer on small inputs.
use db_smw.Common.{◌≡◌, refl, List, [], ◌∷◌, none, some, ℕ_discrete}
use db_smw.Common.Assoc.{find, erase, assign}
use db_smw.Replacer.{init, victim, pin, unpin, frames, erase_node}
use db_smw.Replacer.Order.{IsValid}
use db_smw.Replacer.History.{Call, victims, pins, unpins, run, queue_run, step, run-queue_run}

program : Unit {0}
unfolding init victim pin unpin frames erase_node find erase assign step run ℕ_discrete
program = tt

abbrev calls : List Call
calls = unpins 4 ∷ unpins 7 ∷ unpins 4 ∷ pins 4 ∷ unpins 9 ∷ unpins 1 ∷ victims ∷ []

-- the third frame of a pool of two is turned away; the oldest frame left is 7
calls_result : (run (init 2) calls).0 ≡ none ∷ none ∷ none ∷ none ∷ none ∷ none ∷ some 7 ∷ []
unfolding program
calls_result = refl

run-queue_run_example :
    IsValid (run (init 2) calls).1
    × (((run (init 2) calls).0, frames (run (init 2) calls).1) ≡ queue_run 2 [] calls)
run-queue_run_example = run-queue_run 2 calls
