-- ===== src/Gc/Rounds.antt =====
-- gc-arena/src/context.rs: the rounds of `Wake` and `Propagate`, up to the start of the sweep.
use luster.Prelude.{ℕ, ◌<◌, ◌≡◌, ◌⊎◌, refl, true, List, [], has, arith}
use luster.Prelude.Run.{Run, panic, Returns}
use luster.Float.{Float}
use luster.Gc.{wake, propagate, Root, Context, as_f64}
use luster.Gc.Collect.{wake_round, less_debt}
use luster.Gc.Marks.{mark_colors, mark_queues, trace_all-marks, mark-Marked, whites-mark}
use luster.Gc.Valid.{Common, Quiet, Marking, rooted}
use luster.Gc.Mark.{recolored-Common}
use luster.Gc.Advance.{measure, budget, HasRoom, Advanced}

-- The result of a round: a state, and the work done.
module _ ⦃fl : Float⦄ where
  abbrev pub Advances :
      List ℕ → (ℕ → List ℕ) → ℕ → Type 0 → Type 0 → Run (fl.F64 × Context) → Type 0
  Advances root refs bound Before Room r = Returns r (λ x. Advanced root refs bound Before Room x.1)

  -- A round that panics for want of room, or goes on.
  abbrev pub Tries : List ℕ → (ℕ → List ℕ) → ℕ → Type 0 → Type 0 → Run (fl.F64 × Context) → Type 0
  Tries root refs bound Before Room r =
      ((r ≡ panic) × ¬ Room) ⊎ Advances root refs bound Before Room r

module _ ⦃fl : Float⦄ (root : Root) {front rest : List ℕ} {s : Context}
    (v : Common root.refs [] front rest s) where
  abbrev woken : Context
  woken = record s {
    color = mark_colors s.needs_trace root.refs s.color;
    gray_queue = mark_queues s.needs_trace root.refs s.color s.gray_queue;
    allocation_debt = less_debt root.size (record s {
      color = mark_colors s.needs_trace root.refs s.color;
      gray_queue = mark_queues s.needs_trace root.refs s.color s.gray_queue;
    });
    phase = propagate;
  }

  module _ (q : Quiet rest s) where
    root_live : (c : ℕ) → has c root.refs ≡ true → s.live c ≡ true
    root_live c h = ground (arith, v.roots c)

    in_front : (c : ℕ) → s.live c ≡ true → has c front ≡ true
    in_front c h = ground (arith, v.objects c, q.no_rest)

    woken-Marking : Marking root.refs rest woken
    woken-Marking =
        let m = mark-Marked s.needs_trace root.refs s.color s.gray_queue in
        record {
          no_rest = q.no_rest;
          no_prev = q.no_prev;
          queued_live = λ p h. ground (arith, m.queues p, root_live p, q.no_gray, q.no_again);
          queued_marked = λ p h. ground (arith, m.queues p, m.marks p, q.no_gray, q.no_again);
          grays = λ p l h. ground (arith, m.grays p, q.all_white p);
          blacks = λ p c l h k. ground (arith, m.blacks p, q.all_white p, v.leaves p);
          roots_marked = m.marks;
        }

    woken-measure : measure propagate front rest woken < measure wake front rest s
    unfolding measure
    woken-measure =
        let w =
          whites-mark s.needs_trace root.refs s.color s.gray_queue front
            (λ c h. in_front c (root_live c h)) in
        ground (arith, w, q.no_gray, q.no_again)

    pub wake_round-Advances :
        Advances root.refs s.refs
          (measure wake front rest s)
          Unit
          (HasRoom wake rest s)
          (wake_round root s)
    unfolding wake_round budget
    wake_round-Advances =
        let m = mark-Marked s.needs_trace root.refs s.color s.gray_queue in
        (
          (as_f64 root.size, woken),
          rw (trace_all-marks root.refs s root_live) refl,
          record {
            phase = propagate;
            front = front;
            rest = rest;
            at_phase = refl;
            same_refs = refl;
            common =
                recolored-Common v woken.color woken.gray_queue s.gray_again propagate
                  woken.allocation_debt q.no_rest;
            phased = woken-Marking;
            falls = woken-measure;
            precise = λ _ p l h. rooted p (ground (arith, m.only p, q.all_white p));
            room = λ r. r;
          },
        )
