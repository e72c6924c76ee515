-- ===== src/Sequence/Tests.antt =====
-- gc-sequence/src: sequences over a counter.
use luster.Prelude.{ℕ, ◌+◌, ◌*◌, refl, Bool, true, false, Option, none, some, arith, ltb}
use luster.Prelude.Run.{Run, done, ◌>>=◌}
use luster.Sequence.{
  Step, Then, second, Flatten, outer, inner, chain, chain_step, done_step, fn_step,
}
use luster.Sequence.Results.{Result, ok, err, and_chain_step}
use luster.Sequence.Finish.{Finishes, now, chain-Finishes, chain_assoc, chain_after}
use luster.Sequence.AndChain.{refused, continued, and_chain-Finishes}
use luster.Sequence.Fused.{IsFused, done-IsFused, chain-IsFused}
use luster.Sequence.Sequencer.{Arena, Collector, View, Gives, lua_sequence, lua_sequence-Gives}

-- A closure that counts, and one that gives a sequence.
abbrev count : ℕ → Run (ℕ × ℕ)
count m = done (m + 1, m + 1)

abbrev times_ten : ℕ → ℕ → Run (Option ℕ × ℕ)
times_ten m o = done (some (o * 10), m + 1)

abbrev add_seven : ℕ → ℕ → Run (Option ℕ × ℕ)
add_seven m o = done (some (o + 7), m + 1)

count-Finishes : Finishes (fn_step {M = ℕ} {R = ℕ}) 0 (some count) 4 5 none 5
unfolding fn_step
count-Finishes = now (some count) none 4 5 5 refl

done-Finishes : (m a : ℕ) → Finishes (done_step {M = ℕ} {O = ℕ}) 0 (some a) m a none m
unfolding done_step
done-Finishes m a = now (some a) none m m a refl

chain_assoc_example :
    Finishes
      (chain_step
        (chain_step (fn_step {M = ℕ} {R = ℕ}) (done_step {M = ℕ} {O = ℕ}))
        (done_step {M = ℕ} {O = ℕ}))
      (0 + 0 + 0 + 4)
      (chain (chain (some count) times_ten) add_seven)
      4
      57
      (inner none)
      7
    × Finishes
        (chain_step
          (fn_step {M = ℕ} {R = ℕ})
          (chain_step (done_step {M = ℕ} {O = ℕ}) (done_step {M = ℕ} {O = ℕ})))
        (0 + 0 + 0 + 4)
        (chain (some count) (chain_after times_ten add_seven))
        4
        57
        (inner (inner none))
        7
chain_assoc_example =
    chain_assoc times_ten add_seven count-Finishes refl (done-Finishes 6 50) refl
      (done-Finishes 7 57)

-- A closure that fails on an even count.
abbrev check : ℕ → ℕ → Run (Result (Option (Result ℕ ℕ)) ℕ × ℕ)
check m a = done (if_small (ltb a 3), m + 1)
  where
    if_small : Bool → Result (Option (Result ℕ ℕ)) ℕ
    if_small true = ok (some (ok (a * 10)))
    if_small false = err a

abbrev results : Step ℕ (Option (Result ℕ ℕ)) (Result ℕ ℕ)
results = done_step

results-Finishes : (m : ℕ) (a : Result ℕ ℕ) → Finishes results 0 (some a) m a none m
unfolding done_step
results-Finishes m a = now (some a) none m m a refl

and_chain-Finishes_example :
    Finishes
      (and_chain_step results results)
      (0 + 2)
      (chain (some (ok 2)) check)
      8
      (ok 20)
      (inner none)
      9
and_chain-Finishes_example =
    and_chain-Finishes (results-Finishes 8 (ok 2))
      (continued 2 (some (ok 20)) none 9 9 0 (ok 20) refl (results-Finishes 9 (ok 20)))

refused_run :
    Finishes
      (and_chain_step results results)
      (0 + 1)
      (chain (some (ok 5)) check)
      8
      (err 5)
      (outer (second none))
      9
refused_run = and_chain-Finishes (results-Finishes 8 (ok 5)) (refused 5 5 9 refl)

chain-IsFused_example :
    IsFused (chain_step (fn_step {M = ℕ} {R = ℕ}) (done_step {M = ℕ} {O = ℕ}))
    × IsFused (and_chain_step results results)
chain-IsFused_example = chain-IsFused (fn_step {M = ℕ} {R = ℕ}) results done-IsFused done-IsFused

-- A memory with a count that the steps see and a debt that they do not.
abbrev debts : Collector (ℕ × ℕ)
debts = record {
  is_due = λ m. ltb 2 m.1;
  collect_debt = λ m. done (m.0, 0);
  write_barrier = λ m. done (m.0, m.1 + 1);
}

abbrev counter :
    Step ℕ (Flatten (Then (Option (ℕ → Run (ℕ × ℕ))) (ℕ → ℕ → Run (Option ℕ × ℕ)) ℕ) (Option ℕ)) ℕ
counter = chain_step fn_step done_step

abbrev indebted : {S O : Type 0} → Step ℕ S O → Step (ℕ × ℕ) S O
indebted step s m = do x ← step s m.0; done (x.0, x.1, (x.2, m.1 + 5))

abbrev counts : View debts ℕ (indebted counter) counter
counts = record {
  view = λ m. m.0;
  steps = λ s s' m o v h. ((v, m.1 + 5), rw h refl, refl);
  collects = λ m. ((m.0, 0), refl, refl);
  writes = λ m. ((m.0, m.1 + 1), refl, refl);
}

abbrev idle :
    Arena
      (ℕ × ℕ)
      (Flatten (Then (Option (ℕ → Run (ℕ × ℕ))) (ℕ → ℕ → Run (Option ℕ × ℕ)) ℕ) (Option ℕ))
idle = record { memory = (4, 0); current_sequence = none }

lua_sequence-Gives_example :
    Gives debts counts 50 6
      (lua_sequence debts 3 (indebted counter) (chain (some count) times_ten) idle)
lua_sequence-Gives_example =
    lua_sequence-Gives debts counts 3 idle
      (chain-Finishes times_ten count-Finishes refl (done-Finishes 6 50)) (omega arith)
