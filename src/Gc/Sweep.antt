-- ===== src/Gc/Sweep.antt =====
-- gc-arena/src/context.rs: the rounds of `Sweep`.
use luster.Prelude.{
  ℕ, leb, ltb, ◌+◌, ◌-◌, ◌^◌, ◌≡◌, Bool-cases, inl, inr, refl, sym, ap, ◌∙◌, true, false, ◌||◌,
  Option, none, some, List, [], ◌∷◌, ◌++◌, has, has-append, NoRepeat-append, NoRepeat-left,
  NoRepeat-right, NoRepeat-remove, NoRepeat-snoc, last, last-snoc, arith, subst,
}
use luster.Prelude.Run.{done}
use luster.Float.{Float}
use luster.Gc.{GcColor, white, gray, black, is_white, is_black, sweep, put, Context, as_f64}
use luster.Gc.Collect.{less_debt, unlink, release, retain, sweep_from}
use luster.Gc.Sizes.{sizes, sizes-append}
use luster.Gc.Links.{Links, Links-put, Links-snoc, Links-relink, last-has, last-nil}
use luster.Gc.Valid.{Common, Sweeping}
use luster.Gc.Advance.{measure, IsPrecise, budget, HasRoom, Fits-less, Advanced}
use luster.Gc.Rounds.{Advances, Tries}

module _ ⦃fl : Float⦄ (root : List ℕ) {front ps : List ℕ} {s : Context} (p : ℕ)
    (v : Common root [] front (p ∷ ps) s) (w : Sweeping front (p ∷ ps) s)
    (links : Links s.next (s.next p) ps none) where
  there : s.live p ≡ true
  there = ground (arith, v.objects p)

  alone : (has p front ≡ false) × (has p ps ≡ false)
  alone = (
    NoRepeat-append front (p ∷ ps) v.no_repeat p (ground arith),
    (NoRepeat-right front (p ∷ ps) v.no_repeat).0,
  )

  -- A white object has been unlinked and freed.
  abbrev released : Option ℕ → (ℕ → Option ℕ) → Context
  released all next = record s {
    sweep_ptr = s.next p;
    all = all;
    next = next;
    total_allocated = s.total_allocated - s.size p;
    allocation_debt =
        less_debt (s.size p) (record s { sweep_ptr = s.next p; all = all; next = next });
    live = put s.live p false;
  }

  released-Common :
      (all : Option ℕ) (next : ℕ → Option ℕ)
      → is_white (s.color p) ≡ true
      → Links next all front (s.next p)
      → Links next (s.next p) ps none
      → Common root [] front ps (released all next)
  unfolding sizes put
  released-Common all next c l r =
      let (a, b) = alone in
      record {
        front_links = l;
        rest_links = r;
        no_repeat = NoRepeat-remove front p ps v.no_repeat;
        objects = λ q. ground (arith, v.objects q);
        total = omega (arith, v.total);
        closed = λ q d k h. ground (arith, v.closed q d);
        roots = λ d h. ground (arith, v.roots d);
        holds = λ d h. cc;
        leaves = v.leaves;
      }

  released-Advanced :
      (all : Option ℕ) (next : ℕ → Option ℕ)
      → s.phase ≡ sweep
      → is_white (s.color p) ≡ true
      → Links next all front (s.next p)
      → Links next (s.next p) ps none
      → Advanced root s.refs
          (measure sweep front (p ∷ ps) s)
          (IsPrecise sweep root front (p ∷ ps) s)
          (HasRoom sweep (p ∷ ps) s)
          (released all next)
  unfolding measure budget sizes
  released-Advanced all next e c l r = record {
    phase = sweep;
    front = front;
    rest = ps;
    at_phase = e;
    same_refs = refl;
    common = released-Common all next c l r;
    phased = record {
      no_gray = w.no_gray;
      no_again = w.no_again;
      prev = w.prev;
      front_white = w.front_white;
      rest_colors = λ q h. w.rest_colors q (ground arith);
    };
    falls = omega arith;
    precise = λ (f, g). (f, λ q h k. g q (ground arith) k);
    room = λ r. Fits-less r (omega arith) (omega arith);
  }

  -- A black object has been turned white.
  abbrev retained : Context
  retained = record s {
    sweep_ptr = s.next p;
    sweep_prev = some p;
    remembered_size = s.remembered_size + s.size p;
    color = put s.color p white;
  }

  retained-Common : is_black (s.color p) ≡ true → Common root [] (front ++ p ∷ []) ps retained
  unfolding sizes put
  retained-Common c =
      let (a, b) = alone in
      let at : (q : ℕ) → has q (front ++ p ∷ []) ≡ (has q front || has q (p ∷ [])) =
        λ q. has-append q front (p ∷ []) in
      record {
        front_links =
            Links-snoc s.next s.all front p
              (subst (λ o. Links s.next s.all front o) v.rest_links.0 v.front_links);
        rest_links = links;
        no_repeat = NoRepeat-snoc front p ps v.no_repeat;
        objects = λ q. ground (arith, v.objects q, at q);
        total = omega (arith, v.total, sizes-append s.size front (p ∷ []));
        closed = λ q d k h. ground (arith, v.closed q d);
        roots = λ d h. ground (arith, v.roots d);
        holds = λ d h. cc;
        leaves = v.leaves;
      }

  retained-Advanced :
      s.phase ≡ sweep
      → is_black (s.color p) ≡ true
      → Advanced root s.refs
          (measure sweep front (p ∷ ps) s)
          (IsPrecise sweep root front (p ∷ ps) s)
          (HasRoom sweep (p ∷ ps) s)
          retained
  unfolding measure put budget sizes
  retained-Advanced e c =
      let (a, b) = alone in
      let at : (q : ℕ) → has q (front ++ p ∷ []) ≡ (has q front || has q (p ∷ [])) =
        λ q. has-append q front (p ∷ []) in
      record {
        phase = sweep;
        front = front ++ p ∷ [];
        rest = ps;
        at_phase = e;
        same_refs = refl;
        common = retained-Common c;
        phased = record {
          no_gray = w.no_gray;
          no_again = w.no_again;
          prev = sym (last-snoc front p);
          front_white = λ q h. ground (arith, w.front_white q, at q);
          rest_colors = λ q h. ground (arith, w.rest_colors q);
        };
        falls = omega arith;
        precise = λ (f, g).
            (λ q h. ground (arith, at q, f q, g q), λ q h k. g q (ground arith) (ground arith));
        room = λ r. Fits-less r (omega arith) (omega arith);
      }

  unlinked-first :
      last front ≡ none
      → unlink s.sweep_prev p (record s { sweep_ptr = s.next p })
        ≡ done (record s { sweep_ptr = s.next p; all = s.next p })
  unfolding unlink
  unlinked-first h =
      let at : s.all ≡ some p =
        subst (λ xs. Links s.next s.all xs s.sweep_ptr) (last-nil front h) v.front_links
        ∙ v.rest_links.0 in
      ground (arith, w.prev, at)

  unlinked-later :
      (q : ℕ)
      → last front ≡ some q
      → unlink s.sweep_prev p (record s { sweep_ptr = s.next p })
        ≡ done (record s { sweep_ptr = s.next p; next = put s.next q (s.next p) })
  unfolding unlink
  unlinked-later q h = ground (arith, w.prev, v.objects q, last-has q front h)

  enough : leb (s.size p) s.total_allocated ≡ true
  unfolding sizes
  enough = ground (arith, v.total)

  release-Advances :
      (prev : Option ℕ)
      → last front ≡ prev
      → s.phase ≡ sweep
      → is_white (s.color p) ≡ true
      → Advances root s.refs
          (measure sweep front (p ∷ ps) s)
          (IsPrecise sweep root front (p ∷ ps) s)
          (HasRoom sweep (p ∷ ps) s)
          (release p (record s { sweep_ptr = s.next p }))
  unfolding release
  release-Advances none h e c = (
    (as_f64 (s.size p), released (s.next p) s.next),
    rw (unlinked-first h, enough) refl,
    released-Advanced (s.next p) s.next e c
        (subst (λ xs. Links s.next (s.next p) xs (s.next p)) (sym (last-nil front h)) refl) links,
  )
  release-Advances (some q) h e c =
      let next = put s.next q (s.next p) in
      let apart : has q ps ≡ false =
        ground (arith, NoRepeat-append front (p ∷ ps) v.no_repeat q, last-has q front h) in
      (
        (as_f64 (s.size p), released s.all next),
        rw (unlinked-later q h, enough) refl,
        released-Advanced s.all next e c
            (Links-relink s.next q (s.next p) s.all front s.sweep_ptr
              (NoRepeat-left front (p ∷ ps) v.no_repeat) h v.front_links)
            (Links-put s.next q (s.next p) (s.next p) ps none apart links),
      )

  retain-Tries :
      s.phase ≡ sweep
      → is_black (s.color p) ≡ true
      → Tries root s.refs
          (measure sweep front (p ∷ ps) s)
          (IsPrecise sweep root front (p ∷ ps) s)
          (HasRoom sweep (p ∷ ps) s)
          (retain p (record s { sweep_ptr = s.next p }))
  unfolding retain budget sizes
  retain-Tries e c = elim (Bool-cases (ltb (s.remembered_size + s.size p) (2 ^ 64))) [
    | inl enough ↦ inr ((as_f64 0, retained), rw (c, enough) refl, retained-Advanced e c)
    | inr more ↦ inl (rw (c, more) refl, λ room. ground (arith, more, room.counts))
  ]

  pub sweep_one-Tries :
      s.phase ≡ sweep
      → Tries root s.refs
          (measure sweep front (p ∷ ps) s)
          (IsPrecise sweep root front (p ∷ ps) s)
          (HasRoom sweep (p ∷ ps) s)
          (sweep_from (some p) s)
  unfolding sweep_from
  sweep_one-Tries e = rw there (by_color (s.color p) refl)
    where
      by_color :
          (c : GcColor)
          → s.color p ≡ c
          → Tries root s.refs
              (measure sweep front (p ∷ ps) s)
              (IsPrecise sweep root front (p ∷ ps) s)
              (HasRoom sweep (p ∷ ps) s)
              (elim c [
                | white ↦ release p (record s { sweep_ptr = s.next p })
                | _ ↦ retain p (record s { sweep_ptr = s.next p })
              ])
      by_color white h = inr (release-Advances (last front) refl e (ap is_white h))
      by_color black h = retain-Tries e (ap is_black h)
      by_color gray h = ground (arith, w.rest_colors p)
