-- ===== src/Sequence.antt =====
-- gc-sequence/src: sequences of steps over an arena, and their combinators. `M` is the arena that a
-- step mutates, `S` the state of a sequence and `O` its output. A step gives the output if the
-- sequence is complete, its new state and the arena. A closure is a function that can panic.
use luster.Prelude.{Option, none, some, ◌≡◌}
use luster.Prelude.Run.{Run, done, panic, ◌>>=◌}
pub mod Results
pub mod Finish
pub mod AndChain
pub mod Fused
pub mod Sequencer
mod Tests

-- `Sequence::step`
abbrev pub Step : Type 0 → Type 0 → Type 0 → Type 0
Step M S O = S → M → Run (Option O × S × M)

-- `Option::take` and `expect`
abbrev pub expect : {A : Type 0} → Option A → Run A
expect none = panic
expect (some a) = done a

-- `done`: `Done` of an output, until it is taken.
unfoldable pub done_step : {M O : Type 0} → Step M (Option O) O
done_step o m = do a ← expect o; done (some a, none, m)

-- `from_fn` and `from_fn_with`
unfoldable pub fn_step : {M R : Type 0} → Step M (Option (M → Run (R × M))) R
fn_step f m = do g ← expect f; r ← g m; done (some r.0, none, r.1)

unfoldable pub fn_with_step : {M C R : Type 0} → Step M (Option (C × (M → C → Run (R × M)))) R
fn_with_step f m = do g ← expect f; r ← g.1 m g.0; done (some r.0, none, r.1)

pub record Map (S F : Type 0) : Type 0 where
  pub sequence : S
  pub function : Option F

unfoldable pub map_step : {M S O R : Type 0} → Step M S O → Step M (Map S (O → Run R)) R
map_step step s m = do
  x ← step s.sequence m
  elim x.0 [
    | none ↦ done (none, record s { sequence = x.1 }, x.2)
    | some o ↦ do
      f ← expect s.function
      r ← f o
      done (some r, record { sequence = x.1; function = none }, x.2)
  ]

unfoldable pub map_with_step :
    {M S O C R : Type 0} → Step M S O → Step M (Map S (C × (C → O → Run R))) R
map_with_step step s m = do
  x ← step s.sequence m
  elim x.0 [
    | none ↦ done (none, record s { sequence = x.1 }, x.2)
    | some o ↦ do
      f ← expect s.function
      r ← f.1 f.0 o
      done (some r, record { sequence = x.1; function = none }, x.2)
  ]

-- The two states of `Then`: the sequence runs, or its output waits for the function.
pub data Then (S F O : Type 0) : Type 0 where
  first : S → Option F → Then S F O
  second : Option (O × F) → Then S F O

unfoldable pub then_step :
    {M S O R : Type 0} → Step M S O → Step M (Then S (M → O → Run (R × M)) O) R
then_step step (first s f) m = do
  x ← step s m
  elim x.0 [
    | none ↦ done (none, first x.1 f, x.2)
    | some o ↦ do g ← expect f; done (none, second (some (o, g)), x.2)
  ]
then_step step (second p) m = do g ← expect p; r ← g.1 m g.0; done (some r.0, second none, r.1)

unfoldable pub then_with_step :
    {M S O C R : Type 0} → Step M S O → Step M (Then S (C × (M → C → O → Run (R × M))) O) R
then_with_step step (first s f) m = do
  x ← step s m
  elim x.0 [
    | none ↦ done (none, first x.1 f, x.2)
    | some o ↦ do g ← expect f; done (none, second (some (o, g)), x.2)
  ]
then_with_step step (second p) m = do
  g ← expect p
  r ← g.1.1 m g.1.0 g.0
  done (some r.0, second none, r.1)

-- `Flatten`: a sequence, and then the sequence that it gives.
pub data Flatten (S T : Type 0) : Type 0 where
  outer : S → Flatten S T
  inner : T → Flatten S T

unfoldable pub flatten_step : {M S T O : Type 0} → Step M S T → Step M T O → Step M (Flatten S T) O
flatten_step step step' (outer s) m = do
  x ← step s m
  elim x.0 [ none ↦ done (none, outer x.1, x.2) | some t ↦ done (none, inner t, x.2) ]
flatten_step step step' (inner t) m = do x ← step' t m; done (x.0, inner x.1, x.2)

-- `SequenceExt`
abbrev pub map : {S F : Type 0} → S → F → Map S F
map s f = record { sequence = s; function = some f }

abbrev pub then : {S F O : Type 0} → S → F → Then S F O
then s f = first s (some f)

abbrev pub flatten : {S T : Type 0} → S → Flatten S T
flatten s = outer s

abbrev pub chain : {S F T O : Type 0} → S → F → Flatten (Then S F O) T
chain s f = flatten (then s f)

abbrev pub chain_step :
    {M S O T R : Type 0}
    → Step M S O
    → Step M T R
    → Step M (Flatten (Then S (M → O → Run (T × M)) O) T) R
chain_step step step' = flatten_step (then_step step) step'
