-- ===== src/Gc/Advance.antt =====
-- gc-arena/src/context.rs: what a round of the collector has to show for the loop: the invariant, a
-- measure that falls, room for its counts, and that only what the root leads to is kept.
use luster.Prelude.{ℕ, ◌+◌, ◌*◌, ◌^◌, ◌<◌, ◌≤◌, ◌≡◌, true, false, List, length, has, arith}
use luster.Float.{Float}
use luster.Gc.{is_white, is_black, Phase, wake, propagate, sweep, sleep, ArenaParameters, Context}
use luster.Gc.Collect.{pause_size}
use luster.Gc.Sizes.{sizes}
use luster.Gc.Marks.{whites}
use luster.Gc.Valid.{Common, Phased, Reachable}

module _ ⦃fl : Float⦄ where
  -- The rounds that are left at most, up to `Sleep`.
  unfoldable pub measure : Phase → (front rest : List ℕ) → Context → ℕ
  unfolding whites
  measure wake front rest s = 3 + length front + whites s.color front * 2
  measure propagate front rest s =
      2 + length front + (whites s.color front * 2 + length s.gray_queue) + length s.gray_again
  measure sweep front rest s = 1 + length rest
  measure sleep front rest s = 0

  -- What has been marked, or kept, is reachable.
  abbrev pub IsPrecise : Phase → (root front rest : List ℕ) → Context → Type 0
  IsPrecise wake root front rest s = Unit
  IsPrecise propagate root front rest s =
      (p : ℕ) → s.live p ≡ true → is_white (s.color p) ≡ false → Reachable root s.refs p
  IsPrecise sweep root front rest s =
      ((p : ℕ) → has p front ≡ true → Reachable root s.refs p)
      × ((p : ℕ) → has p rest ≡ true → is_black (s.color p) ≡ true → Reachable root s.refs p)
  IsPrecise sleep root front rest s = (p : ℕ) → s.live p ≡ true → Reachable root s.refs p

  -- No count of bytes leaves 64 bits where at most `bytes` are remembered and `total` are allocated.
  pub record Fits (parameters : ArenaParameters) (bytes total : ℕ) : Type 0 where
    pub counts : bytes < 2 ^ 64
    pub wakes : (n : ℕ) → n ≤ bytes → total + pause_size parameters n < 2 ^ 64

  -- What will have been remembered at the end of the sweep, at most.
  unfoldable pub budget : Phase → List ℕ → Context → ℕ
  unfolding sizes
  budget sweep rest s = s.remembered_size + sizes s.size rest
  budget sleep rest s = 0
  budget _ rest s = s.remembered_size + s.total_allocated

  abbrev pub HasRoom : Phase → List ℕ → Context → Type 0
  HasRoom ph rest s = Fits s.parameters (budget ph rest s) s.total_allocated

  pub Fits-less :
      {parameters : ArenaParameters} {bytes bytes' total total' : ℕ}
      → Fits parameters bytes total
      → bytes' ≤ bytes
      → total' ≤ total
      → Fits parameters bytes' total'
  Fits-less f b t = record {
    counts = omega (arith, f.counts, b);
    wakes = λ n h. omega (arith, f.wakes n (omega (arith, h, b)), t);
  }

  pub record Advanced (root : List ℕ) (refs : ℕ → List ℕ) (bound : ℕ) (Before Room : Type 0)
      (t : Context) : Type 0 where
    pub phase : Phase
    pub front : List ℕ
    pub rest : List ℕ
    pub at_phase : t.phase ≡ phase
    pub same_refs : t.refs ≡ refs
    pub common : Common root List.[] front rest t
    pub phased : Phased phase root front rest t
    pub falls : measure phase front rest t < bound
    pub precise : Before → IsPrecise phase root front rest t
    pub room : Room → HasRoom phase rest t
