-- ===== src/Gc/Start.antt =====
-- gc-arena/src/arena.rs: the steps of the mutator, and the arena that `Arena::new` makes.
use luster.Prelude.{
  Bool, false, Bool-cases, inl, inr, ℕ, ◌≡◌, refl, sym, ◌∙◌, true, List, [], has, arith, subst,
}
use luster.Prelude.Run.{done, done-injective, panic-done}
use luster.Float.{Float}
use luster.Gc.{wake, Context, ArenaParameters, new, allocate, write, write_barrier}
use luster.Gc.Sizes.{sizes}
use luster.Gc.Valid.{Common, Phased, IsValid, keeps, Quiet}
use luster.Gc.Valid.{valid_at}
use luster.Gc.Allocate.{allocate-IsValid}
use luster.Gc.Write.{write-IsValid}
use luster.Gc.Steps.{Mutates, allocated, written, loaded, from_root, dropped, Built, empty, builds}

module _ ⦃fl : Float⦄ where
  held-Common :
      {root held held' front rest : List ℕ} {s : Context}
      → Common root held front rest s
      → ((c : ℕ) → has c held' ≡ true → keeps s rest c ≡ true)
      → Common root held' front rest s
  held-Common v h = record {
    front_links = v.front_links;
    rest_links = v.rest_links;
    no_repeat = v.no_repeat;
    objects = v.objects;
    total = v.total;
    closed = v.closed;
    roots = v.roots;
    holds = h;
    leaves = v.leaves;
  }

  held-IsValid :
      {root held held' : List ℕ} {s : Context} (v : IsValid root held s)
      → ((c : ℕ) → has c held' ≡ true → keeps s v.rest c ≡ true)
      → IsValid root held' s
  held-IsValid v h = record {
    front = v.front;
    rest = v.rest;
    common = held-Common v.common h;
    phased = v.phased;
  }

  -- A write that returns is one of a cell that is not borrowed.
  write-free :
      (borrowed : ℕ → Bool) (p : ℕ) (refs : List ℕ) (s t : Context)
      → write borrowed p refs s ≡ done t
      → borrowed p ≡ false
  unfolding write
  write-free borrowed p refs s t e = elim (Bool-cases (borrowed p)) [
    | inr free ↦ free
    | inl taken ↦ elim (Bool-cases (s.live p)) [
      | inl l ↦ absurd (panic-done (rw (l, taken) at e))
      | inr l ↦ absurd (panic-done (rw l at e))
    ]
  ]

  -- No step of the mutator breaks the invariant.
  pub Mutates-IsValid :
      {root held held' : List ℕ} {s t : Context}
      → Mutates root held s held' t
      → IsValid root held s
      → IsValid root held' t
  Mutates-IsValid (allocated held s p size nt refs fresh from leaf) v =
      allocate-IsValid v.common p fresh s.phase size nt refs from leaf refl v.phased
  Mutates-IsValid {root} (written held s t borrowed p refs h from leaf e) v =
      let free = write-free borrowed p refs s t e in
      let (t', e', w) =
        write-IsValid v.common p refs h from leaf borrowed s.phase free refl v.phased in
      subst (IsValid root held) (done-injective (sym e' ∙ e)) w
  Mutates-IsValid (loaded held s p c h k) v =
      held-IsValid v
        (λ d m. ground (arith, v.common.holds d, v.common.holds p, v.common.closed p c))
  Mutates-IsValid (from_root held s c h) v =
      held-IsValid v (λ d m. ground (arith, v.common.holds d, v.common.roots c))
  Mutates-IsValid (dropped held held' s h) v = held-IsValid v (λ d m. v.common.holds d (h d m))

  write_barrier-phase :
      (borrowed : ℕ → Bool) (p : ℕ) (refs : List ℕ) (s t : Context)
      → write borrowed p refs s ≡ done t
      → t.phase ≡ s.phase
  unfolding write write_barrier
  write_barrier-phase borrowed p refs s t e = ground arith

  Mutates-wake :
      {root held held' : List ℕ} {s t : Context}
      → Mutates root held s held' t
      → s.phase ≡ wake
      → t.phase ≡ wake
  unfolding allocate
  Mutates-wake (allocated held s p size nt refs fresh from leaf) e = ground arith
  Mutates-wake (written held s t borrowed p refs h from leaf k) e =
      write_barrier-phase borrowed p refs s t k ∙ e
  Mutates-wake (loaded held s p c h k) e = e
  Mutates-wake (from_root held s c h) e = e
  Mutates-wake (dropped held held' s h) e = e

  new-Quiet : (parameters : ArenaParameters) → Quiet [] (new parameters)
  new-Quiet parameters = record {
    no_rest = refl;
    no_gray = refl;
    no_again = refl;
    no_prev = refl;
    all_white = λ p l. refl;
  }

  new-Common : (parameters : ArenaParameters) → Common [] [] [] [] (new parameters)
  unfolding sizes
  new-Common parameters = record {
    front_links = refl;
    rest_links = refl;
    no_repeat = tt;
    objects = λ p. refl;
    total = refl;
    closed = λ p c k h. cc;
    roots = λ c h. cc;
    holds = λ c h. cc;
    leaves = λ p h. refl;
  }

  pub Built-IsValid :
      {parameters : ArenaParameters} {held : List ℕ} {s : Context}
      → Built parameters held s
      → IsValid [] held s × (s.phase ≡ wake)
  Built-IsValid {parameters} empty =
      (valid_at wake (new-Common parameters) refl (new-Quiet parameters), refl)
  Built-IsValid (builds held held' s t b m) =
      let (v, e) = Built-IsValid b in (Mutates-IsValid m v, Mutates-wake m e)

  pub start-IsValid :
      {root held : List ℕ} {s : Context}
      → IsValid [] held s
      → s.phase ≡ wake
      → ((c : ℕ) → has c root ≡ true → has c held ≡ true)
      → IsValid root [] s
  start-IsValid {root} {s = s} v e from =
      let c = v.common in
      valid_at wake
        (record {
          front_links = c.front_links;
          rest_links = c.rest_links;
          no_repeat = c.no_repeat;
          objects = c.objects;
          total = c.total;
          closed = c.closed;
          roots = λ d h. c.holds d (from d h);
          holds = λ d h. cc;
          leaves = c.leaves;
        })
        e (subst (λ ph. Phased ph [] v.front v.rest s) e v.phased)
