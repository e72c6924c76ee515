-- ===== src/Gc/Mark.antt =====
-- gc-arena/src/context.rs: the rounds of the phases `Wake` and `Propagate` keep the invariant.
use luster.Prelude.{ℕ, ◌≡◌, refl, true, false, ◌||◌, none, List, [], has, arith, ◌==◌}
use luster.Prelude.Run.{done}
use luster.Float.{Float}
use luster.Gc.{GcColor, gray, black, is_white, Phase, put, Context}
use luster.Gc.Collect.{blacken}
use luster.Gc.Marks.{mark_colors, mark_queues, trace_all-marks, mark-Marked}
use luster.Gc.Valid.{Common, Marking}

module _ ⦃fl : Float⦄ {root held front rest : List ℕ} {s : Context}
    (v : Common root held front rest s) where
  -- Outside the sweep the colors play no part in what is kept.
  pub recolored-Common :
      (color : ℕ → GcColor) (queue again : List ℕ) (phase : Phase) (debt : fl.F64)
      → rest ≡ []
      → Common root held front rest (record s {
        color = color;
        gray_queue = queue;
        gray_again = again;
        phase = phase;
        allocation_debt = debt;
      })
  recolored-Common color queue again phase debt e = record {
    front_links = v.front_links;
    rest_links = v.rest_links;
    no_repeat = v.no_repeat;
    objects = v.objects;
    total = v.total;
    closed = λ q c k h. ground (arith, v.closed q c);
    roots = λ c h. ground (arith, v.roots c);
    holds = λ c h. ground (arith, v.holds c);
    leaves = v.leaves;
  }

  -- A gray object has been taken out of its queue.
  pub record MarkingBut (p : ℕ) : Type 0 where
    pub no_rest : rest ≡ []
    pub no_prev : s.sweep_prev ≡ none
    pub queued_live : (q : ℕ) → (has q s.gray_queue || has q s.gray_again) ≡ true → s.live q ≡ true
    pub queued_marked :
        (q : ℕ) → (has q s.gray_queue || has q s.gray_again) ≡ true → is_white (s.color q) ≡ false
    pub grays :
        (q : ℕ)
        → s.live q ≡ true
        → s.color q ≡ gray
        → (q == p || (has q s.gray_queue || has q s.gray_again)) ≡ true
    pub blacks :
        (q c : ℕ)
        → s.live q ≡ true
        → s.color q ≡ black
        → has c (s.refs q) ≡ true
        → is_white (s.color c) ≡ false
    pub roots_marked : (c : ℕ) → has c root ≡ true → is_white (s.color c) ≡ false

  abbrev pub blackened : ℕ → Context
  blackened p = record s {
    color = put (mark_colors s.needs_trace (s.refs p) s.color) p black;
    gray_queue = mark_queues s.needs_trace (s.refs p) s.color s.gray_queue;
  }

  pub blacken-Marking :
      (p : ℕ)
      → s.live p ≡ true
      → MarkingBut p
      → (blacken p s ≡ done (blackened p)) × Marking root rest (blackened p)
  unfolding blacken put
  blacken-Marking p l b =
      let cs = s.refs p in
      let m = mark-Marked s.needs_trace cs s.color s.gray_queue in
      let children : (c : ℕ) → has c cs ≡ true → s.live c ≡ true =
        λ c h. ground (arith, v.closed p c, b.no_rest) in
      (
        rw (l, trace_all-marks cs s children) refl,
        record {
          no_rest = b.no_rest;
          no_prev = b.no_prev;
          queued_live = λ q h. ground (arith, b.queued_live q, m.queues q, children q);
          queued_marked =
              λ q h. ground (arith, b.queued_marked q, m.queues q, m.keeps q, m.marks q);
          grays = λ q lq h. ground (arith, b.grays q, m.grays q, m.queued q);
          blacks = λ q c lq h k.
              ground (arith, b.blacks q c, m.blacks q, m.keeps c, m.marks c, v.leaves q);
          roots_marked = λ c h. ground (arith, b.roots_marked c, m.keeps c);
        },
      )
