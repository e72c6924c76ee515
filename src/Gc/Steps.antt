-- ===== src/Gc/Steps.antt =====
-- gc-arena/src/arena.rs and gc-arena/src/context.rs: the mutator and the collector in turn. A step of
-- the mutator allocates, writes, takes a pointer out of an object or out of the root, or lets go of
-- pointers; it can hold no other pointers, by the lifetimes of `MutationContext`.
use luster.Prelude.{ℕ, ◌≡◌, ◌||◌, Bool, true, false, List, [], ◌∷◌, has, some}
use luster.Prelude.Run.{done}
use luster.Float.{Float}
use luster.Gc.{Root, Context, ArenaParameters, new, wake_up, allocate, write}
use luster.Gc.Collect.{collect_round}

module _ ⦃fl : Float⦄ where
  -- A step of the mutator, with the pointers that it holds before and after.
  pub data Mutates (root : List ℕ) : List ℕ → Context → List ℕ → Context → Type 0 where
    allocated :
        (held : List ℕ) (s : Context) (p size : ℕ) (needs_trace : Bool) (refs : List ℕ)
        → s.live p ≡ false
        → ((c : ℕ) → has c refs ≡ true → has c held ≡ true)
        → (needs_trace ≡ false → refs ≡ [])
        → Mutates root held s (p ∷ held) (allocate p size needs_trace refs s)
    written :
        (held : List ℕ) (s t : Context) (borrowed : ℕ → Bool) (p : ℕ) (refs : List ℕ)
        → has p held ≡ true
        → ((c : ℕ) → has c refs ≡ true → (has c held || has c (s.refs p)) ≡ true)
        → (s.needs_trace p ≡ false → refs ≡ [])
        → write borrowed p refs s ≡ done t
        → Mutates root held s held t
    loaded :
        (held : List ℕ) (s : Context) (p c : ℕ)
        → has p held ≡ true
        → has c (s.refs p) ≡ true
        → Mutates root held s (c ∷ held) s
    from_root :
        (held : List ℕ) (s : Context) (c : ℕ) → has c root ≡ true → Mutates root held s (c ∷ held) s
    dropped :
        (held held' : List ℕ) (s : Context)
        → ((c : ℕ) → has c held' ≡ true → has c held ≡ true)
        → Mutates root held s held' s

  -- What the closure of `Arena::new` does: there is no root yet, and no collection.
  pub data Built (parameters : ArenaParameters) : List ℕ → Context → Type 0 where
    empty : Built parameters [] (new parameters)
    builds :
        (held held' : List ℕ) (s t : Context)
        → Built parameters held s
        → Mutates [] held s held' t
        → Built parameters held' t

  -- The states that an arena with this root gets to, and the pointers that are held there.
  pub data Reached (parameters : ArenaParameters) (root : Root) : List ℕ → Context → Type 0 where
    started :
        (held : List ℕ) (s : Context)
        → Built parameters held s
        → ((c : ℕ) → has c root.refs ≡ true → has c held ≡ true)
        → Reached parameters root [] s
    mutated :
        (held held' : List ℕ) (s t : Context)
        → Reached parameters root held s
        → Mutates root.refs held s held' t
        → Reached parameters root held' t
    woken : (s : Context) → Reached parameters root [] s → Reached parameters root [] (wake_up s)
    collected :
        (s t : Context) (work : fl.F64)
        → Reached parameters root [] s
        → collect_round root s ≡ done (some (work, t))
        → Reached parameters root [] t
