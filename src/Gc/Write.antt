-- ===== src/Gc/Write.antt =====
-- gc-arena/src/context.rs: a write behind its barrier keeps the invariant of the arena.
use luster.Prelude.{
  Bool, ℕ, ◌≡◌, refl, sym, ◌∙◌, true, false, ◌&&◌, ◌||◌, List, [], ◌∷◌, has, arith, Bool-cases, inl,
  inr, subst,
}
use luster.Prelude.Run.{Returns}
use luster.Float.{Float}
use luster.Gc.{
  gray, is_black, Phase, wake, propagate, sweep, sleep, is_propagate, put, Context, write_barrier,
  write,
}
use luster.Gc.Valid.{Common, Marking, Phased, IsValid, valid_at}

module _ ⦃fl : Float⦄ {root held front rest : List ℕ} {s : Context}
    (v : Common root held front rest s) where
  module _ (p : ℕ) (refs : List ℕ) (held_p : has p held ≡ true)
      (from : (c : ℕ) → has c refs ≡ true → (has c held || has c (s.refs p)) ≡ true)
      (leaf : s.needs_trace p ≡ false → refs ≡ []) where
    abbrev mutated : Context
    mutated = record s { refs = put s.refs p refs }

    abbrev barred : Context
    barred = record s {
      color = put s.color p gray;
      gray_again = p ∷ s.gray_again;
      refs = put s.refs p refs;
    }

    mutated-Common : Common root held front rest mutated
    unfolding put
    mutated-Common = record {
      front_links = v.front_links;
      rest_links = v.rest_links;
      no_repeat = v.no_repeat;
      objects = v.objects;
      total = v.total;
      closed = λ q c k h. ground (arith, v.closed q c, v.holds c, from c);
      roots = v.roots;
      holds = v.holds;
      leaves = λ q h. ground (arith, v.leaves q, leaf);
    }

    barred-Common : rest ≡ [] → Common root held front rest barred
    unfolding put
    barred-Common e = record {
      front_links = v.front_links;
      rest_links = v.rest_links;
      no_repeat = v.no_repeat;
      objects = v.objects;
      total = v.total;
      closed = λ q c k h. ground (arith, v.closed q c, v.holds c, from c);
      roots = λ c h. ground (arith, v.roots c);
      holds = λ c h. ground (arith, v.holds c);
      leaves = λ q h. ground (arith, v.leaves q, leaf);
    }

    mutated-Marking : is_black (s.color p) ≡ false → Marking root rest s → Marking root rest mutated
    unfolding put
    mutated-Marking e m = record {
      no_rest = m.no_rest;
      no_prev = m.no_prev;
      queued_live = m.queued_live;
      queued_marked = m.queued_marked;
      grays = m.grays;
      blacks = λ q c l h k. ground (arith, m.blacks q c);
      roots_marked = m.roots_marked;
    }

    barred-Marking : is_black (s.color p) ≡ true → Marking root rest s → Marking root rest barred
    unfolding put
    barred-Marking e m = record {
      no_rest = m.no_rest;
      no_prev = m.no_prev;
      queued_live = λ q h. ground (arith, m.queued_live q, v.holds p);
      queued_marked = λ q h. ground (arith, m.queued_marked q);
      grays = λ q l h. ground (arith, m.grays q);
      blacks = λ q c l h k. ground (arith, m.blacks q c);
      roots_marked = λ c h. ground (arith, m.roots_marked c);
    }

    mutated-IsValid :
        (ph : Phase)
        → s.phase ≡ ph
        → (is_propagate ph && is_black (s.color p)) ≡ false
        → Phased ph root front rest s
        → IsValid root held mutated
    mutated-IsValid wake e n h = valid_at wake mutated-Common e (record {
      no_rest = h.no_rest;
      no_gray = h.no_gray;
      no_again = h.no_again;
      no_prev = h.no_prev;
      all_white = h.all_white;
    })
    mutated-IsValid sleep e n h = valid_at sleep mutated-Common e (record {
      no_rest = h.no_rest;
      no_gray = h.no_gray;
      no_again = h.no_again;
      no_prev = h.no_prev;
      all_white = h.all_white;
    })
    mutated-IsValid propagate e n h = valid_at propagate mutated-Common e (mutated-Marking n h)
    mutated-IsValid sweep e n h = valid_at sweep mutated-Common e (record {
      no_gray = h.no_gray;
      no_again = h.no_again;
      prev = h.prev;
      front_white = h.front_white;
      rest_colors = h.rest_colors;
    })

    pub write-IsValid :
        (borrowed : ℕ → Bool) (ph : Phase)
        → borrowed p ≡ false
        → s.phase ≡ ph
        → Phased ph root front rest s
        → Returns (write borrowed p refs s) (IsValid root held)
    unfolding write write_barrier
    write-IsValid borrowed ph free e h =
        let l : s.live p ≡ true = ground (arith, v.holds p) in
        elim (Bool-cases (is_propagate s.phase && is_black (s.color p))) [
          | inr calm ↦ (mutated, rw (l, free, calm) refl, mutated-IsValid ph e (ground arith) h)
          | inl bar ↦
              let prop : s.phase ≡ propagate = ground arith in
              let m = subst (λ ph. Phased ph root front rest s) (sym e ∙ prop) h in
              (
                barred,
                rw (l, free, bar) refl,
                valid_at propagate (barred-Common m.no_rest) prop (barred-Marking (ground arith) m),
              )
        ]
