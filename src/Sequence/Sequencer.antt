-- ===== src/Sequence/Sequencer.antt =====
-- gc-sequence/src/sequencable_arena.rs and src/lua.rs: an arena that holds the sequence that is run,
-- and the loop that steps it and collects in between. The memory of the arena, its collections and the
-- write barrier of the cell that holds the sequence are parameters. The output is not boxed as `Any`.
use luster.Prelude.{
  ℕ, zero, suc, ◌<◌, ◌≡◌, refl, sym, ◌∙◌, subst, Bool, Option, none, some, arith, if◌then◌else◌,
  Bool-cases, inl, inr,
}
use luster.Prelude.Run.{Run, done, ◌>>=◌, Returns}
use luster.Sequence.{Step, expect}
use luster.Sequence.Results.{Result, ok, err}
use luster.Sequence.Finish.{Finishes, now, later}

pub record Arena (M S : Type 0) : Type 0 where
  pub memory : M
  pub current_sequence : Option S

-- What the loop needs of the arena.
pub record Collector (M : Type 0) : Type 0 where
  -- `allocation_debt() > COLLECTOR_GRANULARITY`
  pub is_due : M → Bool
  pub collect_debt : M → Run M
  pub write_barrier : M → Run M

module _ {M S : Type 0} (gc : Collector M) where
  -- `Arena::sequence`
  unfoldable pub sequence : S → Arena M S → Run (Arena M S)
  sequence s a = do
    m ← gc.write_barrier a.memory
    done (record { memory = m; current_sequence = some s })

  -- `Sequencer::abort`
  unfoldable pub abort : Arena M S → Run (Arena M S)
  abort a = do m ← gc.write_barrier a.memory; done (record { memory = m; current_sequence = none })

  unfoldable pub collect_due : Arena M S → Run (Arena M S)
  collect_due a =
      if gc.is_due a.memory
      then (do m ← gc.collect_debt a.memory; done (record a { memory = m }))
      else done a

module _ {M S O : Type 0} (gc : Collector M) where
  -- `Sequencer::step`
  unfoldable pub step_once : Step M S O → Arena M S → Run (Result (Arena M S × O) (Arena M S))
  step_once step a = do
    m ← gc.write_barrier a.memory
    s ← expect a.current_sequence
    x ← step s m
    elim x.0 [
      | none ↦ done (err (record { memory = x.2; current_sequence = some x.1 }))
      | some o ↦ do
        m' ← gc.write_barrier x.2
        done (ok (record { memory = m'; current_sequence = none }, o))
    ]

  -- The loop of `Lua::sequence`, on fuel: `none` if it runs out.
  unfoldable pub run_loop : ℕ → Step M S O → Arena M S → Run (Option (Arena M S × O))
  run_loop zero step a = done none
  run_loop (suc fuel) step a = do
    r ← step_once step a
    elim r [ ok x ↦ done (some x) | err b ↦ do c ← collect_due gc b; run_loop fuel step c ]

  -- `Lua::sequence`
  unfoldable pub lua_sequence : ℕ → Step M S O → S → Arena M S → Run (Option (Arena M S × O))
  lua_sequence fuel step s a = do b ← sequence gc s a; run_loop fuel step b

  -- What a step may see of the memory, and that neither a collection nor the barrier changes it.
  pub record View (V : Type 0) (step : Step M S O) (step' : Step V S O) : Type 0 where
    pub view : M → V
    pub steps :
        (s s' : S) (m : M) (o : Option O) (v : V)
        → step' s (view m) ≡ done (o, s', v)
        → (m' : M) × (step s m ≡ done (o, s', m')) × (view m' ≡ v)
    pub collects : (m : M) → Returns (gc.collect_debt m) (λ m'. view m' ≡ view m)
    pub writes : (m : M) → Returns (gc.write_barrier m) (λ m'. view m' ≡ view m)

  module _ {V : Type 0} {step : Step M S O} {step' : Step V S O} (w : View V step step') where
    step_once-some :
        (s s' : S) (m : M) (o : O) (v : V)
        → step' s (w.view m) ≡ done (some o, s', v)
        → Returns (step_once step (record { memory = m; current_sequence = some s })) (λ r.
          (a : Arena M S) × (r ≡ ok (a, o)) × (a.current_sequence ≡ none) × (w.view a.memory ≡ v))
    unfolding step_once
    step_once-some s s' m o v h =
        let (m1, b1, v1) = w.writes m in
        let (m2, b2, v2) =
          w.steps s s' m1 (some o) v (subst (λ u. step' s u ≡ done (some o, s', v)) (sym v1) h) in
        let (m3, b3, v3) = w.writes m2 in
        let a : Arena M S = record { memory = m3; current_sequence = none } in
        (ok (a, o), rw (b1, b2, b3) refl, (a, refl, refl, v3 ∙ v2))

    step_once-none :
        (s s' : S) (m : M) (v : V)
        → step' s (w.view m) ≡ done (none, s', v)
        → Returns (step_once step (record { memory = m; current_sequence = some s })) (λ r.
          (m' : M) × (r ≡ err (record { memory = m'; current_sequence = some s' }))
          × (w.view m' ≡ v))
    unfolding step_once
    step_once-none s s' m v h =
        let (m1, b1, v1) = w.writes m in
        let (m2, b2, v2) =
          w.steps s s' m1 none v (subst (λ u. step' s u ≡ done (none, s', v)) (sym v1) h) in
        (_, rw (b1, b2) refl, (m2, refl, v2))

    collect_due-view :
        (a : Arena M S)
        → Returns
            (collect_due gc a)
            (λ b. (b.current_sequence ≡ a.current_sequence) × (w.view b.memory ≡ w.view a.memory))
    unfolding collect_due
    collect_due-view a = elim (Bool-cases (gc.is_due a.memory)) [
      | inl due ↦
          let (m, b, v) = w.collects a.memory in
          (record a { memory = m }, rw (due, b) refl, (refl, v))
      | inr not_due ↦ (a, rw not_due refl, (refl, refl))
    ]

    -- What the loop returns: the output, and the arena without a sequence.
    abbrev pub Gives : O → V → Run (Option (Arena M S × O)) → Type 0
    Gives o v r = Returns r (λ x.
        (a : Arena M S) × (x ≡ some (a, o)) × (a.current_sequence ≡ none) × (w.view a.memory ≡ v))

    run_loop-Gives :
        (fuel : ℕ) {n : ℕ} {s s' : S} (m : M) {u v : V} {o : O}
        → Finishes step' n s u o s' v
        → w.view m ≡ u
        → n < fuel
        → Gives o v (run_loop fuel step (record { memory = m; current_sequence = some s }))
    unfolding run_loop
    run_loop-Gives zero m l e lt = ground (arith, lt)
    run_loop-Gives (suc fuel) m (now s s' u v o h) e lt =
        let (r, b, (a, k, c, view)) =
          step_once-some s s' m o v (subst (λ u. step' s u ≡ done (some o, s', v)) (sym e) h) in
        (some (a, o), rw (b, k) refl, (a, refl, c, view))
    run_loop-Gives (suc fuel) m (later n s t s' u u' v o h l) e lt =
        let (r, b, (m1, k, view1)) =
          step_once-none s t m u' (subst (λ u. step' s u ≡ done (none, t, u')) (sym e) h) in
        let (c, d, (same, view2)) =
          collect_due-view (record { memory = m1; current_sequence = some t }) in
        let (x, run, g) = run_loop-Gives fuel c.memory l (view2 ∙ view1) (omega (arith, lt)) in
        let run' : run_loop fuel step c ≡ done x =
          subst
            (λ cur.
              run_loop fuel step (record { memory = c.memory; current_sequence = cur }) ≡ done x)
            (sym same) run in
        (x, rw (b, k, d) run', g)

    -- Where a sequence comes to an output on what its steps see of the memory, and neither a
    -- collection nor the write barrier panics or changes that, the loop of `Lua::sequence`, with
    -- fuel above the number of its steps but the last, returns that output, leaves what the steps
    -- see as they leave it, and holds no sequence any more, whenever collections are due.
    pub lua_sequence-Gives :
        (fuel : ℕ) {n : ℕ} {s s' : S} (a : Arena M S) {v : V} {o : O}
        → Finishes step' n s (w.view a.memory) o s' v
        → n < fuel
        → Gives o v (lua_sequence fuel step s a)
    unfolding lua_sequence sequence
    lua_sequence-Gives fuel {s = s} a l lt =
        let (m, b, e) = w.writes a.memory in
        let (x, run, g) = run_loop-Gives fuel m l e lt in (x, rw b run, g)
