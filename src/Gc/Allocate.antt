-- ===== src/Gc/Allocate.antt =====
-- gc-arena/src/context.rs: allocation keeps the invariant of the arena.
use luster.Prelude.{
  ℕ, ◌+◌, ◌≡◌, refl, sym, Bool, true, false, none, List, [], ◌∷◌, has, has-append, last, arith, ltb,
  Bool-cases, inl, inr, subst,
}
use luster.Float.{Float}
use luster.Gc.{
  Phase, wake, propagate, sweep, sleep, is_sweep, put, put_self, Context, allocate, is_none,
}
use luster.Gc.Links.{Links, Links-put}
use luster.Gc.Sizes.{sizes-put, sizes-push}
use luster.Gc.Valid.{Common, Quiet, Marking, Sweeping, Phased, IsValid, valid_at}

last-is_none : (x : ℕ) (xs : List ℕ) → is_none (last (x ∷ xs)) ≡ false
unfolding is_none
last-is_none x [] = refl
last-is_none x (y ∷ ys) = last-is_none y ys

module _ ⦃fl : Float⦄ where
  allocate-prev :
      (p size : ℕ) (nt : Bool) (refs front : List ℕ) (s : Context)
      → s.phase ≡ sweep
      → s.sweep_prev ≡ last front
      → (allocate p size nt refs s).sweep_prev ≡ last (p ∷ front)
  unfolding allocate is_none
  allocate-prev p size nt refs [] s e h = ground arith
  allocate-prev p size nt refs (x ∷ xs) s e h = ground (arith, last-is_none x xs)

module _ ⦃fl : Float⦄ {root held front rest : List ℕ} {s : Context}
    (v : Common root held front rest s) where
  module _ (p : ℕ) (fresh : s.live p ≡ false) where
    outside : (has p front ≡ false) × (has p rest ≡ false)
    outside = ground (arith, v.objects p)

    allocate-Common :
        (size : ℕ) (nt : Bool) (refs : List ℕ)
        → ((c : ℕ) → has c refs ≡ true → has c held ≡ true)
        → (nt ≡ false → refs ≡ [])
        → Common root (p ∷ held) (p ∷ front) rest (allocate p size nt refs s)
    unfolding allocate put
    allocate-Common size nt refs from leaf =
        let (nf, nr) = outside in
        record {
          front_links = (
            refl,
            subst (λ o. Links (put s.next p s.all) o front s.sweep_ptr)
                (sym (put_self s.next p s.all))
                (Links-put s.next p s.all s.all front s.sweep_ptr nf v.front_links),
          );
          rest_links = Links-put s.next p s.all s.sweep_ptr rest none nr v.rest_links;
          no_repeat = (ground (arith, has-append p front rest), v.no_repeat);
          objects = λ q. ground (arith, v.objects q);
          total =
              omega (
                arith,
                v.total,
                sizes-push s.size p size front nf,
                sizes-put s.size p size rest nr,
              );
          closed = λ q c k h. ground (arith, v.closed q c, v.holds c, from c, fresh);
          roots = λ c h. ground (arith, v.roots c);
          holds = λ c h. ground (arith, v.holds c);
          leaves = λ q h. ground (arith, v.leaves q, leaf);
        }

    allocate-Quiet :
        (size : ℕ) (nt : Bool) (refs : List ℕ)
        → is_sweep s.phase ≡ false
        → Quiet rest s
        → Quiet rest (allocate p size nt refs s)
    unfolding allocate put
    allocate-Quiet size nt refs e q = record {
      no_rest = q.no_rest;
      no_gray = q.no_gray;
      no_again = q.no_again;
      no_prev = ground (arith, q.no_prev);
      all_white = λ c h. ground (arith, q.all_white c);
    }

    allocate-Marking :
        (size : ℕ) (nt : Bool) (refs : List ℕ)
        → s.phase ≡ propagate
        → Marking root rest s
        → Marking root rest (allocate p size nt refs s)
    unfolding allocate put
    allocate-Marking size nt refs e m = record {
      no_rest = m.no_rest;
      no_prev = ground (arith, m.no_prev);
      queued_live = λ c h. ground (arith, m.queued_live c);
      queued_marked = λ c h. ground (arith, m.queued_marked c, m.queued_live c, fresh);
      grays = λ c l h. ground (arith, m.grays c);
      blacks = λ q c l h k. ground (arith, m.blacks q c, v.closed q c, m.no_rest, fresh);
      roots_marked = λ c h. ground (arith, m.roots_marked c, v.roots c, fresh);
    }

    allocate-Sweeping :
        (size : ℕ) (nt : Bool) (refs : List ℕ)
        → s.phase ≡ sweep
        → Sweeping front rest s
        → Sweeping (p ∷ front) rest (allocate p size nt refs s)
    unfolding allocate put
    allocate-Sweeping size nt refs e w = record {
      no_gray = w.no_gray;
      no_again = w.no_again;
      prev = allocate-prev p size nt refs front s e w.prev;
      front_white = λ c h. ground (arith, w.front_white c);
      rest_colors = λ c h. ground (arith, w.rest_colors c, outside);
    }

    pub allocate-IsValid :
        (ph : Phase) (size : ℕ) (nt : Bool) (refs : List ℕ)
        → ((c : ℕ) → has c refs ≡ true → has c held ≡ true)
        → (nt ≡ false → refs ≡ [])
        → s.phase ≡ ph
        → Phased ph root front rest s
        → IsValid root (p ∷ held) (allocate p size nt refs s)
    unfolding allocate
    allocate-IsValid wake size nt refs from leaf e h =
        valid_at wake (allocate-Common size nt refs from leaf) (ground arith)
          (allocate-Quiet size nt refs (ground arith) h)
    allocate-IsValid propagate size nt refs from leaf e h =
        valid_at propagate (allocate-Common size nt refs from leaf) (ground arith)
          (allocate-Marking size nt refs e h)
    allocate-IsValid sweep size nt refs from leaf e h =
        valid_at sweep (allocate-Common size nt refs from leaf) (ground arith)
          (allocate-Sweeping size nt refs e h)
    allocate-IsValid sleep size nt refs from leaf e h =
        elim (Bool-cases (ltb s.wakeup_total (s.total_allocated + size))) [
          | inl awake ↦
              valid_at wake (allocate-Common size nt refs from leaf) (ground arith)
                (allocate-Quiet size nt refs (ground arith) h)
          | inr asleep ↦
              valid_at sleep (allocate-Common size nt refs from leaf) (ground arith)
                (allocate-Quiet size nt refs (ground arith) h)
        ]
