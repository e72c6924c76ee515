-- ===== src/Sequence/Results.antt =====
-- gc-sequence/src/and_then.rs, map_result.rs and flatten_result.rs: the combinators on sequences that
-- give a `Result`.
use luster.Prelude.{none, some}
use luster.Prelude.Run.{Run, done, ◌>>=◌}
use luster.Sequence.{Step, expect, Map, Then, first, second, Flatten, outer, inner}

pub data Result (A E : Type 0) : Type 0 where
  ok : A → Result A E
  err : E → Result A E

unfoldable pub map_ok_step :
    {M S A E R : Type 0} → Step M S (Result A E) → Step M (Map S (A → Run R)) (Result R E)
map_ok_step step s m = do
  x ← step s.sequence m
  elim x.0 [
    | none ↦ done (none, record s { sequence = x.1 }, x.2)
    | some (err e) ↦ done (some (err e), record s { sequence = x.1 }, x.2)
    | some (ok a) ↦ do
      f ← expect s.function
      r ← f a
      done (some (ok r), record { sequence = x.1; function = none }, x.2)
  ]

unfoldable pub map_ok_with_step :
    {M S A E C R : Type 0}
    → Step M S (Result A E)
    → Step M (Map S (C × (C → A → Run R))) (Result R E)
map_ok_with_step step s m = do
  x ← step s.sequence m
  elim x.0 [
    | none ↦ done (none, record s { sequence = x.1 }, x.2)
    | some (err e) ↦ done (some (err e), record s { sequence = x.1 }, x.2)
    | some (ok a) ↦ do
      f ← expect s.function
      r ← f.1 f.0 a
      done (some (ok r), record { sequence = x.1; function = none }, x.2)
  ]

unfoldable pub map_error_step :
    {M S A E R : Type 0} → Step M S (Result A E) → Step M (Map S (E → Run R)) (Result A R)
map_error_step step s m = do
  x ← step s.sequence m
  elim x.0 [
    | none ↦ done (none, record s { sequence = x.1 }, x.2)
    | some (ok a) ↦ done (some (ok a), record s { sequence = x.1 }, x.2)
    | some (err e) ↦ do
      f ← expect s.function
      r ← f e
      done (some (err r), record { sequence = x.1; function = none }, x.2)
  ]

-- `AndThen` has the states of `Then`.
unfoldable pub and_then_step :
    {M S A E R : Type 0}
    → Step M S (Result A E)
    → Step M (Then S (M → A → Run (Result R E × M)) A) (Result R E)
and_then_step step (first s f) m = do
  x ← step s m
  elim x.0 [
    | none ↦ done (none, first x.1 f, x.2)
    | some (err e) ↦ done (some (err e), second none, x.2)
    | some (ok a) ↦ do g ← expect f; done (none, second (some (a, g)), x.2)
  ]
and_then_step step (second p) m = do g ← expect p; r ← g.1 m g.0; done (some r.0, second none, r.1)

unfoldable pub and_then_with_step :
    {M S A E C R : Type 0}
    → Step M S (Result A E)
    → Step M (Then S (C × (M → C → A → Run (Result R E × M))) A) (Result R E)
and_then_with_step step (first s f) m = do
  x ← step s m
  elim x.0 [
    | none ↦ done (none, first x.1 f, x.2)
    | some (err e) ↦ done (some (err e), second none, x.2)
    | some (ok a) ↦ do g ← expect f; done (none, second (some (a, g)), x.2)
  ]
and_then_with_step step (second p) m = do
  g ← expect p
  r ← g.1.1 m g.1.0 g.0
  done (some r.0, second none, r.1)

-- `FlattenOk`
unfoldable pub flatten_ok_step :
    {M S T E O : Type 0}
    → Step M S (Result T E)
    → Step M T (Result O E)
    → Step M (Flatten S T) (Result O E)
flatten_ok_step step step' (outer s) m = do
  x ← step s m
  elim x.0 [
    | none ↦ done (none, outer x.1, x.2)
    | some (err e) ↦ done (some (err e), outer x.1, x.2)
    | some (ok t) ↦ done (none, inner t, x.2)
  ]
flatten_ok_step step step' (inner t) m = do x ← step' t m; done (x.0, inner x.1, x.2)

-- `SequenceResultExt::and_chain`
abbrev pub and_chain_step :
    {M S A E T R : Type 0}
    → Step M S (Result A E)
    → Step M T (Result R E)
    → Step M (Flatten (Then S (M → A → Run (Result T E × M)) A) T) (Result R E)
and_chain_step step step' = flatten_ok_step (and_then_step step) step'
