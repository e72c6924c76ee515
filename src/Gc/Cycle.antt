-- ===== src/Gc/Cycle.antt =====
-- gc-arena/src/context.rs: every round of `do_collection`, and the loop up to `Sleep`.
use luster.Prelude.{
  ℕ, zero, suc, ◌+◌, ◌^◌, ltb, ◌<◌, ◌≡◌, refl, sym, ap, ◌∙◌, true, false, ◌⊎◌, Option, none, some,
  List, [], arith, Bool-cases, inl, inr, subst,
}
use luster.Prelude.Run.{Run, done, panic, Returns}
use luster.Float.{Float}
use luster.Gc.{Phase, wake, propagate, sweep, sleep, Root, Context, as_f64}
use luster.Gc.Collect.{
  pause_size, next_wakeup, sweep_from, sweep_round, round_of, collect_round, do_collection,
}
use luster.Gc.Sizes.{sizes}
use luster.Gc.Links.{Links, Links-cons, Links-nil}
use luster.Gc.Valid.{Common, Sweeping, Phased, IsValid, Reachable}
use luster.Gc.Valid.{valid_at}
use luster.Gc.Advance.{measure, IsPrecise, budget, HasRoom, Fits-less, Advanced}
use luster.Gc.Rounds.{Tries, wake_round-Advances}
use luster.Gc.Propagate.{propagate_round-Advances}
use luster.Gc.Sweep.{sweep_one-Tries}

module _ ⦃fl : Float⦄ (root : List ℕ) {front rest : List ℕ} {s : Context}
    (v : Common root [] front rest s) (w : Sweeping front rest s) (e : s.phase ≡ sweep) where
  abbrev asleep : Context
  asleep = record s {
    sweep_prev = none;
    phase = sleep;
    allocation_debt = as_f64 0;
    wakeup_total = s.total_allocated + pause_size s.parameters s.remembered_size;
  }

  sweep_end-Tries :
      rest ≡ []
      → Tries root s.refs
          (measure sweep front rest s)
          (IsPrecise sweep root front rest s)
          (HasRoom sweep rest s)
          (sweep_from none s)
  unfolding sweep_from measure budget sizes next_wakeup
  sweep_end-Tries n =
      elim (Bool-cases
        (ltb (s.total_allocated + pause_size s.parameters s.remembered_size) (2 ^ 64))) [
          | inr more ↦ inl (
            rw more refl,
            λ room. ground (arith, more, room.wakes s.remembered_size (omega arith)),
          )
          | inl enough ↦ inr (
            (as_f64 0, asleep),
            rw enough refl,
            record {
              phase = sleep;
              front = front;
              rest = rest;
              at_phase = refl;
              same_refs = refl;
              common = record {
                front_links = v.front_links;
                rest_links = v.rest_links;
                no_repeat = v.no_repeat;
                objects = v.objects;
                total = v.total;
                closed = v.closed;
                roots = v.roots;
                holds = v.holds;
                leaves = v.leaves;
              };
              phased = record {
                no_rest = n;
                no_gray = w.no_gray;
                no_again = w.no_again;
                no_prev = refl;
                all_white = λ p l. ground (arith, v.objects p, w.front_white p, n);
              };
              falls = omega arith;
              precise = λ (f, g) p l. f p (ground (arith, v.objects p, n));
              room = λ r. Fits-less r (omega arith) (omega arith);
            },
          )
        ]

  pub sweep_round-Tries :
      Tries root s.refs
        (measure sweep front rest s)
        (IsPrecise sweep root front rest s)
        (HasRoom sweep rest s)
        (sweep_round s)
  unfolding sweep_round
  sweep_round-Tries = by_pointer s.sweep_ptr refl
    where
      by_pointer :
          (o : Option ℕ)
          → s.sweep_ptr ≡ o
          → Tries root s.refs
              (measure sweep front rest s)
              (IsPrecise sweep root front rest s)
              (HasRoom sweep rest s)
              (sweep_from o s)
      by_pointer none h =
          sweep_end-Tries
            (Links-nil s.next rest (subst (λ o. Links s.next o rest none) h v.rest_links))
      by_pointer (some p) h =
          let (ps, same, links) =
            Links-cons s.next p rest (subst (λ o. Links s.next o rest none) h v.rest_links) in
          subst
            (λ xs.
              Tries root s.refs (measure sweep front xs s) (IsPrecise sweep root front xs s)
                (HasRoom sweep xs s) (sweep_from (some p) s))
            (sym same)
            (sweep_one-Tries root p (subst (λ xs. Common root [] front xs s) same v)
              (subst (λ xs. Sweeping front xs s) same w) links e)

module _ ⦃fl : Float⦄ where
  -- A round in this phase goes on to the next state.
  abbrev pub Steps : Phase → (root : Root) (front rest : List ℕ) → Context → Type 0
  Steps ph root front rest s =
      (x : fl.F64 × Context) × (round_of ph root s ≡ done (some x))
      × Advanced root.refs s.refs (measure ph front rest s) (IsPrecise ph root.refs front rest s)
          (HasRoom ph rest s) x.1

  -- Every round of a phase but `Sleep` goes on, or panics for want of room.
  pub round_of-Steps :
      (ph : Phase) (root : Root) {front rest : List ℕ} {s : Context}
      → Common root.refs [] front rest s
      → s.phase ≡ ph
      → Phased ph root.refs front rest s
      → (ph ≡ sleep)
        ⊎ (((round_of ph root s ≡ panic) × ¬ HasRoom ph rest s) ⊎ Steps ph root front rest s)
  unfolding round_of
  round_of-Steps sleep root v e h = inl refl
  round_of-Steps wake root v e h =
      let (x, r, a) = wake_round-Advances root v h in inr (inr (x, rw r refl, a))
  round_of-Steps propagate root v e h =
      let (x, r, a) = propagate_round-Advances root.refs v h e in inr (inr (x, rw r refl, a))
  round_of-Steps sweep root v e h = elim (sweep_round-Tries root.refs v h e) [
    | inl (stuck, full) ↦ inr (inl (rw stuck refl, full))
    | inr (x, r, a) ↦ inr (inr (x, rw r refl, a))
  ]

  pub collect_round-at :
      (ph : Phase) (root : Root) (s : Context) {r : Run (Option (fl.F64 × Context))}
      → s.phase ≡ ph
      → round_of ph root s ≡ r
      → collect_round root s ≡ r
  unfolding collect_round
  collect_round-at ph root s e h = ap (λ ph. round_of ph root s) e ∙ h

  pub round_of-sleep : (root : Root) (s : Context) → round_of sleep root s ≡ done none
  unfolding round_of
  round_of-sleep root s = refl

  -- What the loop ends with: it sleeps or has done its work.
  pub record Collected (root : List ℕ) (refs : ℕ → List ℕ) (work : fl.F64) (Before : Type 0)
      (o : Option (fl.F64 × Context)) : Type 0 where
    pub work_done : fl.F64
    pub state : Context
    pub result : o ≡ some (work_done, state)
    pub valid : IsValid root [] state
    pub same_refs : state.refs ≡ refs
    pub ends : (state.phase ≡ sleep) ⊎ (fl.lt work_done work ≡ false)
    pub precise :
        Before → state.phase ≡ sleep → (p : ℕ) → state.live p ≡ true → Reachable root refs p

  abbrev pub Collects : ℕ → Root → (work work_done : fl.F64) → (Before : Type 0) → Context → Type 0
  Collects fuel root work wd Before s =
      Returns (do_collection fuel root work wd s) (Collected root.refs s.refs work Before)

  pub do_collection-Collects :
      (fuel : ℕ) (root : Root) (work wd : fl.F64) (ph : Phase) (Before : Type 0)
      {front rest : List ℕ} {s : Context}
      → Common root.refs [] front rest s
      → s.phase ≡ ph
      → Phased ph root.refs front rest s
      → measure ph front rest s < fuel
      → (Before → IsPrecise ph root.refs front rest s)
      → HasRoom ph rest s
      → Collects fuel root work wd Before s
  unfolding do_collection
  do_collection-Collects zero root work wd ph Before v e h lt precise room = ground (arith, lt)
  do_collection-Collects (suc fuel) root work wd ph Before {front} {rest} {s} v e h lt precise
        room =
      elim (Bool-cases (fl.lt wd work)) [
        | inr reached ↦ (some (wd, s), rw reached refl, stop (inr reached))
        | inl more ↦ elim (round_of-Steps ph root v e h) [
          | inl k ↦ (
            some (wd, s),
            rw (more, collect_round-at sleep root s (e ∙ k) (round_of-sleep root s)) refl,
            stop (inl (e ∙ k)),
          )
          | inr (inl (stuck, full)) ↦ absurd (full room)
          | inr (inr (x, r, a)) ↦
              let (o, run, c) =
                do_collection-Collects fuel root work (fl.add wd x.0) a.phase Before a.common
                  a.at_phase a.phased (omega (arith, lt, a.falls)) (λ b. a.precise (precise b))
                  (a.room room) in
              (
                o,
                rw (more, collect_round-at ph root s e r, run) refl,
                subst (λ refs. Collected root.refs refs work Before o) a.same_refs c,
              )
        ]
      ]
    where
      stop :
          (s.phase ≡ sleep) ⊎ (fl.lt wd work ≡ false)
          → Collected root.refs s.refs work Before (some (wd, s))
      stop ends = record {
        work_done = wd;
        state = s;
        result = refl;
        valid = valid_at ph v e h;
        same_refs = refl;
        ends = ends;
        precise = λ b k. subst (λ ph. IsPrecise ph root.refs front rest s) (sym e ∙ k) (precise b);
      }
