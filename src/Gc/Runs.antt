-- ===== src/Gc/Runs.antt =====
-- gc-arena/src/arena.rs and gc-arena/src/context.rs: the states that an arena gets to, when the mutator
-- and the collector take turns.
use luster.Prelude.{
  ℕ, ◌≡◌, refl, sym, ◌∙◌, true, false, List, [], ◌++◌, has, has-append, NoRepeat, Bool-cases, ◌⊎◌,
  ap, arith, inl, inr, some, none, subst,
}
use luster.Prelude.Run.{done, done-injective, panic-done}
use luster.Float.{Float}
use luster.Gc.{wake, sleep, is_sleep, Root, Context, ArenaParameters, wake_up}
use luster.Gc.Collect.{collect_round}
use luster.Gc.Sizes.{sizes, sizes-append}
use luster.Gc.Valid.{Common, Phased, IsValid, Reachable, keeps, rooted, follow, Quiet}
use luster.Gc.Valid.{valid_at}
use luster.Gc.Cycle.{round_of-Steps, collect_round-at, round_of-sleep}
use luster.Gc.Links.{Links, Links-append}
use luster.Gc.Mark.{recolored-Common}
use luster.Gc.Steps.{Reached, started, mutated, woken, collected}
use luster.Gc.Start.{Mutates-IsValid, Built-IsValid, start-IsValid}

module _ ⦃fl : Float⦄ where
  -- Between two cycles, where the arena is when it has been woken.
  pub woken_up :
      {root held : List ℕ} {s : Context} (v : IsValid root held s)
      → (s.phase ≡ wake) ⊎ (s.phase ≡ sleep)
      → ((wake_up s).phase ≡ wake)
        × Common root held v.front v.rest (wake_up s)
        × Quiet v.rest (wake_up s)
  unfolding wake_up
  woken_up {root} {s = s} v (inl e) =
      let q = subst (λ ph. Phased ph root v.front v.rest s) e v.phased in
      let awake : is_sleep s.phase ≡ false = ap is_sleep e in rw awake (e, v.common, q)
  woken_up {root} {s = s} v (inr e) =
      let q = subst (λ ph. Phased ph root v.front v.rest s) e v.phased in
      let asleep : is_sleep s.phase ≡ true = ap is_sleep e in
      rw asleep (
        refl,
        recolored-Common v.common s.color s.gray_queue s.gray_again wake s.allocation_debt
            q.no_rest,
        record {
          no_rest = q.no_rest;
          no_gray = q.no_gray;
          no_again = q.no_again;
          no_prev = q.no_prev;
          all_white = q.all_white;
        },
      )

  wake_up-awake : (s : Context) → is_sleep s.phase ≡ false → wake_up s ≡ s
  unfolding wake_up
  wake_up-awake s e = rw e refl

  wake_up-IsValid :
      {root held : List ℕ} {s : Context} → IsValid root held s → IsValid root held (wake_up s)
  wake_up-IsValid {root} {held} {s} v = elim (Bool-cases (is_sleep s.phase)) [
    | inr awake ↦ subst (IsValid root held) (sym (wake_up-awake s awake)) v
    | inl asleep ↦ let (e, c, q) = woken_up v (inr (ground arith)) in valid_at wake c e q
  ]

  collect_round-IsValid :
      (root : Root) (s t : Context) (work : fl.F64)
      → collect_round root s ≡ done (some (work, t))
      → IsValid root.refs [] s
      → IsValid root.refs [] t
  collect_round-IsValid root s t work e v =
      elim (round_of-Steps s.phase root v.common refl v.phased) [
        | inl k ↦
            let stuck = sym e ∙ collect_round-at sleep root s k (round_of-sleep root s) in
            cc (done-injective stuck)
        | inr (inl (stuck, full)) ↦
            absurd (panic-done (sym (collect_round-at s.phase root s refl stuck) ∙ e))
        | inr (inr (x, r, a)) ↦
            let same : some (work, t) ≡ some x =
              done-injective (sym e ∙ collect_round-at s.phase root s refl r) in
            let same_state : x.1 ≡ t = cc in
            subst (IsValid root.refs []) same_state (valid_at a.phase a.common a.at_phase a.phased)
      ]

  -- The states that an arena gets to satisfy the invariant.
  pub Reached-IsValid :
      {parameters : ArenaParameters} {root : Root} {held : List ℕ} {s : Context}
      → Reached parameters root held s
      → IsValid root.refs held s
  Reached-IsValid (started held s b from) = let (v, e) = Built-IsValid b in start-IsValid v e from
  Reached-IsValid (mutated held held' s t r m) = Mutates-IsValid m (Reached-IsValid r)
  Reached-IsValid (woken s r) = wake_up-IsValid (Reached-IsValid r)
  Reached-IsValid {root = root} (collected s t work r e) =
      collect_round-IsValid root s t work e (Reached-IsValid r)

  Reachable-held :
      {root held front rest : List ℕ} {s : Context} (p : ℕ)
      → Common root held front rest s
      → Reachable (root ++ held) s.refs p
      → keeps s rest p ≡ true
  Reachable-held {root} {held} p v (rooted _ h) =
      ground (arith, v.roots p, v.holds p, has-append p root held)
  Reachable-held p v (follow q _ r h) = v.closed q p (Reachable-held q v r) h

  -- Whatever allocations, writes, collection rounds and wake-ups have run, in any order, every
  -- object that the root or a pointer held by the mutator leads to has not been freed.
  pub Reached-live :
      {parameters : ArenaParameters} {root : Root} {held : List ℕ} {s : Context}
      → Reached parameters root held s
      → (p : ℕ) → Reachable (root.refs ++ held) s.refs p
      → s.live p ≡ true
  Reached-live r p h = ground (arith, Reachable-held p (Reached-IsValid r).common h)

  -- The list of all objects holds every live object once, and `total_allocated` is their size.
  pub record Listed (s : Context) : Type 0 where
    pub objects : List ℕ
    pub linked : Links s.next s.all objects none
    pub once : NoRepeat objects
    pub every : (p : ℕ) → s.live p ≡ has p objects
    pub total : s.total_allocated ≡ sizes s.size objects

  -- In every state that an arena gets to, the linked list of all objects ends, holds every object
  -- that has not been freed once and no other, and `total_allocated` is the sum of their sizes.
  pub Reached-Listed :
      {parameters : ArenaParameters} {root : Root} {held : List ℕ} {s : Context}
      → Reached parameters root held s
      → Listed s
  Reached-Listed {s = s} r =
      let v = Reached-IsValid r in
      let c = v.common in
      record {
        objects = v.front ++ v.rest;
        linked =
            Links-append s.next s.all v.front s.sweep_ptr v.rest none c.front_links c.rest_links;
        once = c.no_repeat;
        every = λ p. c.objects p ∙ sym (has-append p v.front v.rest);
        total = c.total ∙ sym (sizes-append s.size v.front v.rest);
      }
