-- ===== src/Gc/Arena.antt =====
-- gc-arena/src/arena.rs: the parameters, and the collections that an arena starts.
use luster.Prelude.{
  false, ◌≤◌, ◌+◌, ◌*◌, length, ℕ, ◌<◌, ◌≡◌, refl, sym, ap, ◌∙◌, ◌⊎◌, true, Option, none, some,
  List, [], arith, Bool-cases, inl, inr, subst, if◌then◌else◌,
}
use luster.Prelude.Run.{Run, done, ◌>>=◌, ◌>>◌, assert, Returns}
use luster.Float.{Float}
use luster.Gc.{wake, sleep, is_sleep, Root, ArenaParameters, Context, wake_up, as_f64}
use luster.Gc.Collect.{do_collection}
use luster.Gc.Marks.{whites-le}
use luster.Gc.Valid.{IsValid, Reachable, Reachable-live}
use luster.Gc.Advance.{measure, IsPrecise, budget, HasRoom}
use luster.Gc.Cycle.{do_collection-Collects}
use luster.Gc.Runs.{woken_up}

module _ ⦃fl : Float⦄ where
  unfoldable pub set_pause_factor : fl.F64 → ArenaParameters → Run ArenaParameters
  set_pause_factor f p = do assert (fl.le (as_f64 0) f); done (record p { pause_factor = f })

  unfoldable pub set_timing_factor : fl.F64 → ArenaParameters → Run ArenaParameters
  set_timing_factor f p = do assert (fl.le (as_f64 0) f); done (record p { timing_factor = f })

  unfoldable pub set_min_sleep : ℕ → ArenaParameters → ArenaParameters
  set_min_sleep n p = record p { min_sleep = n }

  -- The state that a collection leaves; the work that it has done is dropped.
  abbrev pub state_of : Option (fl.F64 × Context) → Option Context
  state_of none = none
  state_of (some (w, t)) = some t

  unfoldable pub collect_debt : ℕ → Root → Context → Run (Option Context)
  collect_debt fuel root s =
      if fl.lt (as_f64 0) s.allocation_debt
      then (do o ← do_collection fuel root s.allocation_debt (as_f64 0) s; done (state_of o))
      else done (some s)

  unfoldable pub collect_all : ℕ → Root → Context → Run (Option Context)
  collect_all fuel root s = do
    o ← do_collection fuel root fl.infinity (as_f64 0) (wake_up s)
    done (state_of o)

  -- The rounds that are left at most, by the invariant.
  abbrev pub rounds_left : {root held : List ℕ} {s : Context} → IsValid root held s → ℕ
  rounds_left {s = s} v = measure s.phase v.front v.rest s

  -- What `do_collection` leaves: it sleeps or has done its work.
  pub record Ended (root : List ℕ) (refs : ℕ → List ℕ) (work : fl.F64)
      (o : Option (fl.F64 × Context)) : Type 0 where
    pub work_done : fl.F64
    pub state : Context
    pub result : o ≡ some (work_done, state)
    pub valid : IsValid root [] state
    pub same_refs : state.refs ≡ refs
    pub ends : (state.phase ≡ sleep) ⊎ (fl.lt work_done work ≡ false)

  -- From a valid state, in any phase and for any work, with fuel for the rounds that are left and
  -- with room for the counts, `do_collection` returns without a panic, asleep or with its work
  -- done; the invariant holds then and no pointer in an object has changed. There is room if the
  -- bytes that will have been remembered at the end of the sweep are at most some number below 2 ^
  -- 64, `budget`, and the bytes allocated with the pause after at most as many are below 2 ^ 64.
  pub do_collection-ends :
      (root : Root) {s : Context} (v : IsValid root.refs [] s) (work : fl.F64) (fuel : ℕ)
      → rounds_left v < fuel
      → HasRoom s.phase v.rest s
      → Returns (do_collection fuel root work (as_f64 0) s) (Ended root.refs s.refs work)
  do_collection-ends root {s} v work fuel lt room =
      let (o, run, c) =
        do_collection-Collects fuel root work (as_f64 0) s.phase (s.phase ≡ wake) v.common refl
          v.phased lt (λ e. subst (λ ph. IsPrecise ph root.refs v.front v.rest s) (sym e) tt)
          room in
      (
        o,
        run,
        record {
          work_done = c.work_done;
          state = c.state;
          result = c.result;
          valid = c.valid;
          same_refs = c.same_refs;
          ends = c.ends;
        },
      )

  -- What `collect_all` leaves of the arena: what the root leads to is there, and if its work is below
  -- infinity, it sleeps and nothing else is there.
  pub record Cleared (root : Root) (s : Context) (fuel : ℕ) : Type 0 where
    pub work_done : fl.F64
    pub state : Context
    pub collected :
        do_collection fuel root fl.infinity (as_f64 0) (wake_up s) ≡ done (some (work_done, state))
    pub returned : collect_all fuel root s ≡ done (some state)
    pub same_refs : state.refs ≡ s.refs
    pub kept : (p : ℕ) → Reachable root.refs s.refs p → state.live p ≡ true
    pub ends :
        (fl.lt work_done fl.infinity ≡ false)
        ⊎ ((state.phase ≡ sleep) × ((p : ℕ) → state.live p ≡ true → Reachable root.refs s.refs p))

  woken-refs : (s : Context) → (wake_up s).refs ≡ s.refs
  unfolding wake_up
  woken-refs s = ground arith

  woken-HasRoom :
      (rest : List ℕ) (s : Context) → HasRoom wake rest s → HasRoom wake rest (wake_up s)
  unfolding wake_up budget
  woken-HasRoom rest s room = elim (Bool-cases (is_sleep s.phase)) [
    | inl asleep ↦ rw asleep room
    | inr awake ↦ rw awake room
  ]

  wake-measure :
      (front rest : List ℕ) (s : Context) → measure wake front rest s ≤ 3 + length front * 3
  unfolding measure
  wake-measure front rest s = omega (arith, whites-le s.color front)

  -- Between two cycles, with fuel above three and three times the number of objects, and with room
  -- for the counts, `collect_all` returns without a panic, and no pointer in an object has
  -- changed; every object that the root leads to is still there. If the work done is below
  -- infinity, the arena sleeps then and no other object is there. There is room if the bytes
  -- remembered and allocated are fewer than 2 ^ 64, and so are the bytes allocated with the pause
  -- after at most as many bytes.
  pub collect_all-clears :
      (root : Root) {s : Context} (v : IsValid root.refs [] s) (fuel : ℕ)
      → (s.phase ≡ wake) ⊎ (s.phase ≡ sleep)
      → 3 + length v.front * 3 < fuel
      → HasRoom wake v.rest s
      → Cleared root s fuel
  unfolding collect_all
  collect_all-clears root {s} v fuel between lt room =
      let (e, k, q) = woken_up v between in
      let (o, run, c) =
        do_collection-Collects fuel root fl.infinity (as_f64 0) wake Unit k e q
          (omega (arith, lt, wake-measure v.front v.rest (wake_up s))) (λ _. tt)
          (woken-HasRoom v.rest s room) in
      let run' = run ∙ ap done c.result in
      let refs = c.same_refs ∙ woken-refs s in
      record {
        work_done = c.work_done;
        state = c.state;
        collected = run';
        returned = rw run' refl;
        same_refs = refs;
        kept = λ p r.
            Reachable-live c.valid p (subst (λ refs. Reachable root.refs refs p) (sym refs) r);
        ends = elim c.ends [
          | inr reached ↦ inl reached
          | inl slept ↦ inr (
            slept,
            λ p l.
                subst (λ refs. Reachable root.refs refs p) (woken-refs s) (c.precise tt slept p l),
          )
        ];
      }

  -- From a valid state, with fuel for the rounds that are left, `collect_debt` returns without a
  -- panic, keeps the invariant, and frees nothing that the root leads to.
  pub collect_debt-keeps :
      (root : Root) {s : Context} (v : IsValid root.refs [] s) (fuel : ℕ)
      → rounds_left v < fuel
      → HasRoom s.phase v.rest s
      → Returns (collect_debt fuel root s) (λ o.
        (t : Context) × (o ≡ some t)
        × IsValid root.refs [] t
        × ((p : ℕ) → Reachable root.refs s.refs p → t.live p ≡ true))
  unfolding collect_debt
  collect_debt-keeps root {s} v fuel lt room =
      elim (Bool-cases (fl.lt (as_f64 0) s.allocation_debt)) [
        | inr no_debt ↦ (some s, rw no_debt refl, (s, refl, v, Reachable-live v))
        | inl debt ↦
            let (o, run, c) = do_collection-ends root v s.allocation_debt fuel lt room in
            (
              some c.state,
              rw (debt, run, c.result) refl,
              (
                c.state,
                refl,
                c.valid,
                λ p r.
                    Reachable-live c.valid p
                      (subst (λ refs. Reachable root.refs refs p) (sym c.same_refs) r),
              ),
            )
      ]
