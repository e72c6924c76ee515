-- ===== src/Gc/Valid.antt =====
-- gc-arena/src/context.rs: the invariant of the arena. The list of all objects is `front`, up to the
-- sweep pointer, and `rest`, from it on; `rest` is empty outside the sweep.
use luster.Prelude.{
  ℕ, ◌+◌, ◌≡◌, sym, subst, Bool, true, false, not, ◌&&◌, ◌||◌, none, List, [], ◌++◌, has, NoRepeat,
  last, arith,
}
use luster.Float.{Float}
use luster.Gc.{
  white, gray, black, is_white, is_black, Phase, wake, propagate, sweep, sleep, Context,
}
use luster.Gc.Sizes.{sizes}
use luster.Gc.Links.{Links}

-- What pointers lead to from the roots.
pub data Reachable (root : List ℕ) (refs : ℕ → List ℕ) : ℕ → Type 0 where
  rooted : (p : ℕ) → has p root ≡ true → Reachable root refs p
  follow : (q p : ℕ) → Reachable root refs q → has p (refs q) ≡ true → Reachable root refs p

module _ ⦃fl : Float⦄ where
  -- A box that the sweep under way will not free.
  abbrev pub keeps : Context → List ℕ → ℕ → Bool
  keeps s rest p = s.live p && (not (has p rest) || is_black (s.color p))

  -- What holds in every phase. `held` are the pointers that the mutator holds.
  pub record Common (root held front rest : List ℕ) (s : Context) : Type 0 where
    pub front_links : Links s.next s.all front s.sweep_ptr
    pub rest_links : Links s.next s.sweep_ptr rest none
    pub no_repeat : NoRepeat (front ++ rest)
    pub objects : (p : ℕ) → s.live p ≡ (has p front || has p rest)
    pub total : s.total_allocated ≡ sizes s.size front + sizes s.size rest
    pub closed : (p c : ℕ) → keeps s rest p ≡ true → has c (s.refs p) ≡ true → keeps s rest c ≡ true
    pub roots : (c : ℕ) → has c root ≡ true → keeps s rest c ≡ true
    pub holds : (c : ℕ) → has c held ≡ true → keeps s rest c ≡ true
    pub leaves : (p : ℕ) → s.needs_trace p ≡ false → s.refs p ≡ []

  -- `Wake` and `Sleep`: every object is white.
  pub record Quiet (rest : List ℕ) (s : Context) : Type 0 where
    pub no_rest : rest ≡ []
    pub no_gray : s.gray_queue ≡ []
    pub no_again : s.gray_again ≡ []
    pub no_prev : s.sweep_prev ≡ none
    pub all_white : (p : ℕ) → s.live p ≡ true → s.color p ≡ white

  -- `Propagate`: the gray objects are those in the queues, and a black object has no pointer to a
  -- white one.
  pub record Marking (root rest : List ℕ) (s : Context) : Type 0 where
    pub no_rest : rest ≡ []
    pub no_prev : s.sweep_prev ≡ none
    pub queued_live : (p : ℕ) → (has p s.gray_queue || has p s.gray_again) ≡ true → s.live p ≡ true
    pub queued_marked :
        (p : ℕ) → (has p s.gray_queue || has p s.gray_again) ≡ true → is_white (s.color p) ≡ false
    pub grays :
        (p : ℕ)
        → s.live p ≡ true
        → s.color p ≡ gray
        → (has p s.gray_queue || has p s.gray_again) ≡ true
    pub blacks :
        (p c : ℕ)
        → s.live p ≡ true
        → s.color p ≡ black
        → has c (s.refs p) ≡ true
        → is_white (s.color c) ≡ false
    pub roots_marked : (c : ℕ) → has c root ≡ true → is_white (s.color c) ≡ false

  -- `Sweep`: what has been swept and what is new is white, the rest is white or black.
  pub record Sweeping (front rest : List ℕ) (s : Context) : Type 0 where
    pub no_gray : s.gray_queue ≡ []
    pub no_again : s.gray_again ≡ []
    pub prev : s.sweep_prev ≡ last front
    pub front_white : (p : ℕ) → has p front ≡ true → s.color p ≡ white
    pub rest_colors :
        (p : ℕ) → has p rest ≡ true → (is_white (s.color p) || is_black (s.color p)) ≡ true

  abbrev pub Phased : Phase → List ℕ → List ℕ → List ℕ → Context → Type 0
  Phased wake root front rest s = Quiet rest s
  Phased sleep root front rest s = Quiet rest s
  Phased propagate root front rest s = Marking root rest s
  Phased sweep root front rest s = Sweeping front rest s

  -- The invariant, for some list of all objects.
  pub record IsValid (root held : List ℕ) (s : Context) : Type 0 where
    pub front : List ℕ
    pub rest : List ℕ
    pub common : Common root held front rest s
    pub phased : Phased s.phase root front rest s

  -- The invariant, at a phase that is known.
  pub valid_at :
      {root held : List ℕ} {s : Context} (ph : Phase) {front rest : List ℕ}
      → Common root held front rest s
      → s.phase ≡ ph
      → Phased ph root front rest s
      → IsValid root held s
  valid_at {root} {s = s} ph {front} {rest} v e h = record {
    front = front;
    rest = rest;
    common = v;
    phased = subst (λ ph. Phased ph root front rest s) (sym e) h;
  }

  Reachable-keeps :
      {root held front rest : List ℕ} {s : Context} (p : ℕ)
      → Common root held front rest s
      → Reachable root s.refs p
      → keeps s rest p ≡ true
  Reachable-keeps p v (rooted _ h) = v.roots p h
  Reachable-keeps p v (follow q _ r h) = v.closed q p (Reachable-keeps q v r) h

  -- Nothing that the root leads to has been freed.
  pub Reachable-live :
      {root held : List ℕ} {s : Context}
      → IsValid root held s
      → (p : ℕ) → Reachable root s.refs p
      → s.live p ≡ true
  Reachable-live v p r = ground (arith, Reachable-keeps p v.common r)
