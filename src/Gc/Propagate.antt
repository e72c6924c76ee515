-- ===== src/Gc/Propagate.antt =====
-- gc-arena/src/context.rs: the rounds of `Propagate`, up to the start of the sweep.
use luster.Prelude.{
  ℕ, ◌≤◌, ◌<◌, ◌≡◌, refl, ap, true, false, none, List, [], ◌∷◌, has, NoRepeat-left, length, arith,
  ◌==◌, Bool-cases, inl, inr, subst,
}
use luster.Float.{Float}
use luster.Gc.{black, is_white, is_black, propagate, sweep, put, Context, as_f64}
use luster.Gc.Collect.{propagate_from, propagate_round, less_debt}
use luster.Gc.Sizes.{sizes}
use luster.Gc.Links.{Links}
use luster.Gc.Marks.{mark_colors, mark-Marked, whites-mark, whites-put-le}
use luster.Gc.Valid.{Common, Marking, follow}
use luster.Gc.Mark.{recolored-Common, MarkingBut, blackened, blacken-Marking}
use luster.Gc.Advance.{budget, HasRoom, Fits-less, measure, IsPrecise, Advanced}
use luster.Gc.Rounds.{Advances}

module _ ⦃fl : Float⦄ (root : List ℕ) {front rest : List ℕ} where
  -- A queue with a gray object, taken out: its colors and pointers, traced.
  module _ {s : Context} (v : Common root [] front rest s) (p : ℕ) (l : s.live p ≡ true)
      (marked : is_white (s.color p) ≡ false) (b : MarkingBut v p) where
    child : (c : ℕ) → has c (s.refs p) ≡ true → has c front ≡ true
    child c h = ground (arith, v.closed p c, b.no_rest, v.objects c)

    blackened-measure :
        measure propagate front rest (blackened v p) ≤ measure propagate front rest s
    unfolding measure
    blackened-measure =
        let c = mark_colors s.needs_trace (s.refs p) s.color in
        let w = whites-mark s.needs_trace (s.refs p) s.color s.gray_queue front child in
        let u = whites-put-le c p black front refl in omega (arith, w, u)

    blackened-IsPrecise :
        IsPrecise propagate root front rest s → IsPrecise propagate root front rest (blackened v p)
    unfolding put
    blackened-IsPrecise precise q lq h =
        let m = mark-Marked s.needs_trace (s.refs p) s.color s.gray_queue in
        elim (Bool-cases (q == p)) [
          | inl same ↦ precise q lq (ground arith)
          | inr other ↦ elim (m.only q (ground arith)) [
            | inl old ↦ precise q lq old
            | inr new ↦ follow p q (precise p l marked) new
          ]
        ]

    pub blackened-Advanced :
        (bound : ℕ) (Before Room : Type 0)
        → s.phase ≡ propagate
        → measure propagate front rest s < bound
        → (Before → IsPrecise propagate root front rest s)
        → (Room → HasRoom propagate rest s)
        → Advanced root s.refs bound Before Room (blackened v p)
    unfolding budget
    blackened-Advanced bound Before Room e lt precise room = record {
      phase = propagate;
      front = front;
      rest = rest;
      at_phase = e;
      same_refs = refl;
      common =
          recolored-Common v (blackened v p).color (blackened v p).gray_queue s.gray_again s.phase
            s.allocation_debt b.no_rest;
      phased = (blacken-Marking v p l b).1;
      falls = omega (arith, blackened-measure);
      precise = λ h. blackened-IsPrecise (precise h);
      room = room;
    }

  module _ {s : Context} (v : Common root [] front rest s) (m : Marking root rest s)
      (e : s.phase ≡ propagate) where
    pop_gray :
        (p : ℕ) (ps : List ℕ)
        → s.gray_queue ≡ p ∷ ps
        → Advances root s.refs
            (measure propagate front rest s)
            (IsPrecise propagate root front rest s)
            (HasRoom propagate rest s)
            (propagate_from (p ∷ ps) s.gray_again s)
    unfolding propagate_from measure budget
    pop_gray p ps h =
        let l : s.live p ≡ true = ground (arith, m.queued_live p) in
        let debt = less_debt (s.size p) s in
        let v' = recolored-Common v s.color ps s.gray_again s.phase debt m.no_rest in
        let b : MarkingBut v' p = record {
          no_rest = m.no_rest;
          no_prev = m.no_prev;
          queued_live = λ q k. ground (arith, m.queued_live q);
          queued_marked = λ q k. ground (arith, m.queued_marked q);
          grays = λ q lq k. ground (arith, m.grays q);
          blacks = m.blacks;
          roots_marked = m.roots_marked;
        } in
        (
          (as_f64 (s.size p), blackened v' p),
          rw (l, (blacken-Marking v' p l b).0) refl,
          blackened-Advanced v' p l (ground (arith, m.queued_marked p)) b _ _ _ e
              (omega (arith, ap length h)) (λ precise. precise) (λ room. room),
        )

    pop_again :
        (p : ℕ) (ps : List ℕ)
        → s.gray_again ≡ p ∷ ps
        → Advances root s.refs
            (measure propagate front rest s)
            (IsPrecise propagate root front rest s)
            (HasRoom propagate rest s)
            (propagate_from [] (p ∷ ps) s)
    unfolding propagate_from measure budget
    pop_again p ps h =
        let l : s.live p ≡ true = ground (arith, m.queued_live p) in
        let v' = recolored-Common v s.color s.gray_queue ps s.phase s.allocation_debt m.no_rest in
        let b : MarkingBut v' p = record {
          no_rest = m.no_rest;
          no_prev = m.no_prev;
          queued_live = λ q k. ground (arith, m.queued_live q);
          queued_marked = λ q k. ground (arith, m.queued_marked q);
          grays = λ q lq k. ground (arith, m.grays q);
          blacks = m.blacks;
          roots_marked = m.roots_marked;
        } in
        (
          (as_f64 0, blackened v' p),
          rw (blacken-Marking v' p l b).0 refl,
          blackened-Advanced v' p l (ground (arith, m.queued_marked p)) b _ _ _ e
              (omega (arith, ap length h)) (λ precise. precise) (λ room. room),
        )

    abbrev sweeping : Context
    sweeping = record s { phase = sweep; sweep_ptr = s.all }

    module _ (no_gray : s.gray_queue ≡ []) (no_again : s.gray_again ≡ []) where
      blackness :
          (p : ℕ) → s.live p ≡ true → is_white (s.color p) ≡ false → is_black (s.color p) ≡ true
      blackness p l h = ground (arith, m.grays p, no_gray, no_again)

      ended : s.sweep_ptr ≡ none
      ended = subst (λ xs. Links s.next s.sweep_ptr xs none) m.no_rest v.rest_links

      sweeping-Common : Common root [] [] front sweeping
      unfolding sizes
      sweeping-Common = record {
        front_links = refl;
        rest_links = subst (λ o. Links s.next s.all front o) ended v.front_links;
        no_repeat = NoRepeat-left front rest v.no_repeat;
        objects = λ p. ground (arith, v.objects p, m.no_rest);
        total = ground (arith, v.total, m.no_rest);
        closed = λ p c k h.
            ground (arith, v.closed p c, m.no_rest, m.blacks p c, v.objects p, blackness c);
        roots = λ c h. ground (arith, v.roots c, m.no_rest, m.roots_marked c, blackness c);
        holds = λ c h. cc;
        leaves = v.leaves;
      }

      start_sweep :
          Advances root s.refs
            (measure propagate front rest s)
            (IsPrecise propagate root front rest s)
            (HasRoom propagate rest s)
            (propagate_from [] [] s)
      unfolding propagate_from measure budget
      start_sweep = (
        (as_f64 0, sweeping),
        refl,
        record {
          phase = sweep;
          front = [];
          rest = front;
          at_phase = refl;
          same_refs = refl;
          common = sweeping-Common;
          phased = record {
            no_gray = no_gray;
            no_again = no_again;
            prev = m.no_prev;
            front_white = λ p h. cc;
            rest_colors = λ p h. ground (arith, v.objects p, blackness p);
          };
          falls = omega arith;
          precise = λ precise.
              (λ p h. cc, λ p h k. precise p (ground (arith, v.objects p)) (ground arith));
          room = λ r. Fits-less r (omega (arith, v.total)) (omega arith);
        },
      )

    pub propagate_round-Advances :
        Advances root s.refs
          (measure propagate front rest s)
          (IsPrecise propagate root front rest s)
          (HasRoom propagate rest s)
          (propagate_round s)
    unfolding propagate_round
    propagate_round-Advances = by_queues s.gray_queue s.gray_again refl refl
      where
        by_queues :
            (queue again : List ℕ)
            → s.gray_queue ≡ queue
            → s.gray_again ≡ again
            → Advances root s.refs
                (measure propagate front rest s)
                (IsPrecise propagate root front rest s)
                (HasRoom propagate rest s)
                (propagate_from queue again s)
        by_queues (p ∷ ps) again h k =
            subst
              (λ xs.
                Advances root s.refs (measure propagate front rest s)
                  (IsPrecise propagate root front rest s) (HasRoom propagate rest s)
                  (propagate_from (p ∷ ps) xs s))
              k (pop_gray p ps h)
        by_queues [] (p ∷ ps) h k = pop_again p ps k
        by_queues [] [] h k = start_sweep h k
