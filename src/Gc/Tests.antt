-- ===== src/Gc/Tests.antt =====
-- gc-arena/src/context.rs and gc-arena/src/arena.rs: an arena with four objects. The root leads to 2
-- and 2 to 1, nothing leads to 3, and 4 is written into 2 when 2 is black.
use luster.Prelude.{ℕ, ◌≡◌, refl, Bool, true, false, Option, some, List, [], ◌∷◌, has, arith, inl}
use luster.Prelude.Int.{pos, ◌+ℤ◌, ◌*ℤ◌, ltb_ℤ}
use luster.Prelude.Run.{Run, done, Returns}
use luster.Float.Whole.{Whole, whole, wholes, lt, both, as_usize}
use luster.Gc.{
  gray, Root, ArenaParameters, Context, new, allocate, more_debt, put, is_none, write,
  write_barrier, wake_up, wake,
}
use luster.Gc.Collect.{
  trace, trace_all, less_debt, blacken, wake_round, propagate_from, propagate_round, round_of,
  collect_round, do_collection, sweep_round, sweep_from, release, retain, unlink, next_wakeup,
  pause_size,
}
use luster.Gc.Sizes.{sizes}
use luster.Gc.Marks.{whites}
use luster.Gc.Advance.{measure, budget, HasRoom}
use luster.Gc.Free.{drop, drop_all, drop-frees}
use luster.Gc.Arena.{
  collect_all, collect_debt, do_collection-ends, Ended, Cleared, collect_all-clears,
}
use luster.Gc.Valid.{rooted, follow, IsValid, Common, Quiet}
use luster.Gc.Steps.{
  allocated, written, from_root, dropped, Built, empty, builds, Reached, started, mutated,
  collected,
}
use luster.Gc.Runs.{Reached-live, Reached-Listed, Listed}

program : Unit {0}
unfolding allocate put collect_round round_of wake_round propagate_round propagate_from blacken
    trace trace_all sweep_round sweep_from release retain unlink next_wakeup pause_size less_debt
    more_debt do_collection collect_all collect_debt wake_up write write_barrier drop drop_all
    is_none lt both as_usize sizes measure whites
program = tt

abbrev parameters : ArenaParameters ⦃fl = wholes⦄
parameters = record { pause_factor = whole (pos 1); timing_factor = whole (pos 1); min_sleep = 64 }

abbrev root : Root
root = record { refs = 2 ∷ []; size = 16 }

abbrev first : Context ⦃fl = wholes⦄
first = allocate ⦃fl = wholes⦄ 1 8 false [] (new ⦃fl = wholes⦄ parameters)

abbrev second : Context ⦃fl = wholes⦄
second = allocate ⦃fl = wholes⦄ 2 8 true (1 ∷ []) first

abbrev third : Context ⦃fl = wholes⦄
third = allocate ⦃fl = wholes⦄ 3 8 true (2 ∷ []) second

third-Built : Built ⦃fl = wholes⦄ parameters (3 ∷ 2 ∷ 1 ∷ []) third
unfolding program
third-Built =
    builds _ _ second third
      (builds _ _ first second
        (builds _ _ _ first empty (allocated [] _ 1 8 false [] refl (λ c h. cc) (λ h. refl)))
        (allocated (1 ∷ []) first 2 8 true (1 ∷ []) refl (λ c h. h) (λ h. cc)))
      (allocated (2 ∷ 1 ∷ []) second 3 8 true (2 ∷ []) refl (λ c h. ground arith) (λ h. cc))

third-Reached : Reached ⦃fl = wholes⦄ parameters root [] third
third-Reached = started _ third third-Built (λ c h. ground arith)

-- The state after a round.
abbrev state_after :
    Run (Option (Whole × Context ⦃fl = wholes⦄)) → Context ⦃fl = wholes⦄ → Context ⦃fl = wholes⦄
state_after (done (some (w, t))) s = t
state_after _ s = s

abbrev work_of : Run (Option (Whole × Context ⦃fl = wholes⦄)) → Whole
work_of (done (some (w, t))) = w
work_of _ = whole (pos 0)

abbrev next_state : Context ⦃fl = wholes⦄ → Context ⦃fl = wholes⦄
next_state s = state_after (collect_round ⦃fl = wholes⦄ root s) s

-- The root has been traced, and 2 turned black.
abbrev blackened_2 : Context ⦃fl = wholes⦄
blackened_2 = next_state (next_state third)

blackened_2-Reached : Reached ⦃fl = wholes⦄ parameters root [] blackened_2
unfolding program
blackened_2-Reached =
    collected (next_state third) blackened_2 (whole (pos 8))
      (collected third (next_state third) (whole (pos 16)) third-Reached refl) refl

abbrev fourth : Context ⦃fl = wholes⦄
fourth = allocate ⦃fl = wholes⦄ 4 8 true (2 ∷ []) blackened_2

fourth-Reached : Reached ⦃fl = wholes⦄ parameters root (4 ∷ 2 ∷ []) fourth
unfolding program
fourth-Reached =
    mutated _ _ blackened_2 fourth
      (mutated _ _ blackened_2 blackened_2 blackened_2-Reached (from_root [] blackened_2 2 refl))
      (allocated (2 ∷ []) blackened_2 4 8 true (2 ∷ []) refl (λ c h. h) (λ h. cc))

-- The pointer that is written keeps 4 from being freed.
abbrev linked : Context ⦃fl = wholes⦄
linked = record fourth {
  color = put fourth.color 2 gray;
  gray_again = 2 ∷ [];
  refs = put fourth.refs 2 (4 ∷ []);
}

linked-Reached : Reached ⦃fl = wholes⦄ parameters root [] linked
unfolding program
linked-Reached =
    mutated (4 ∷ 2 ∷ []) [] linked linked
      (mutated _ _ fourth linked fourth-Reached (
        written (4 ∷ 2 ∷ []) fourth linked (λ _. false) 2 (4 ∷ []) refl (λ c h. ground arith)
          (λ h. cc) refl))
      (dropped (4 ∷ 2 ∷ []) [] linked (λ c h. cc))

Reached-live_example : linked.live 4 ≡ true
unfolding program
Reached-live_example = Reached-live ⦃fl = wholes⦄ linked-Reached 4 (follow 2 4 (rooted 2 refl) refl)

Reached-Listed_example : Listed ⦃fl = wholes⦄ linked
Reached-Listed_example = Reached-Listed ⦃fl = wholes⦄ linked-Reached

-- The objects that a collection leaves of the first four addresses.
abbrev lives : Run (Option (Context ⦃fl = wholes⦄)) → List Bool
lives (done (some t)) = t.live 1 ∷ t.live 2 ∷ t.live 3 ∷ t.live 4 ∷ []
lives _ = []

all-linked : lives (collect_all ⦃fl = wholes⦄ 40 root linked) ≡ true ∷ true ∷ false ∷ true ∷ []
unfolding program ◌+ℤ◌ ◌*ℤ◌
all-linked = refl

all-third : lives (collect_all ⦃fl = wholes⦄ 40 root third) ≡ true ∷ true ∷ false ∷ false ∷ []
unfolding program ◌+ℤ◌ ◌*ℤ◌
all-third = refl

-- An arena that has been written to by hand: its debt is due.
abbrev due : Context ⦃fl = wholes⦄
due = record third { allocation_debt = whole (pos 20) }

due-Common : Common ⦃fl = wholes⦄ (2 ∷ []) [] (3 ∷ 2 ∷ 1 ∷ []) [] due
unfolding program
due-Common = record {
  front_links = (refl, (refl, (refl, refl)));
  rest_links = refl;
  no_repeat = (refl, (refl, (refl, tt)));
  objects = λ p. ground arith;
  total = refl;
  closed = λ p c k h. ground arith;
  roots = λ c h. ground arith;
  holds = λ c h. cc;
  leaves = λ p h. ground arith;
}

due-Quiet : Quiet ⦃fl = wholes⦄ [] due
unfolding program
due-Quiet = record {
  no_rest = refl;
  no_gray = refl;
  no_again = refl;
  no_prev = refl;
  all_white = λ p l. ground arith;
}

abbrev due-IsValid : IsValid ⦃fl = wholes⦄ (2 ∷ []) [] due
unfolding program
due-IsValid = record { front = 3 ∷ 2 ∷ 1 ∷ []; rest = []; common = due-Common; phased = due-Quiet }

due-HasRoom : HasRoom ⦃fl = wholes⦄ wake [] due
unfolding program budget pause_size ◌*ℤ◌ ltb_ℤ
due-HasRoom = record { counts = omega arith; wakes = λ n h. ground arith }

do_collection-ends_example :
    Returns
      (do_collection ⦃fl = wholes⦄ 40 root (whole (pos 100)) (whole (pos 0)) due)
      (Ended ⦃fl = wholes⦄ (2 ∷ []) due.refs (whole (pos 100)))
unfolding program
do_collection-ends_example =
    do_collection-ends ⦃fl = wholes⦄ root due-IsValid (whole (pos 100)) 40 (omega arith) due-HasRoom

collect_all-clears_example : Cleared ⦃fl = wholes⦄ root due 40
unfolding program
collect_all-clears_example =
    collect_all-clears ⦃fl = wholes⦄ root due-IsValid 40 (inl refl) (omega arith) due-HasRoom

third-every : (p : ℕ) → third.live p ≡ has p (3 ∷ 2 ∷ 1 ∷ [])
unfolding program
third-every p = ground arith

abbrev third-Listed : Listed ⦃fl = wholes⦄ third
unfolding program
third-Listed = record {
  objects = 3 ∷ 2 ∷ 1 ∷ [];
  linked = (refl, (refl, (refl, refl)));
  once = (refl, (refl, (refl, tt)));
  every = third-every;
  total = refl;
}

drop-frees_example :
    Returns
      (drop ⦃fl = wholes⦄ 3 third)
      (λ o. (t : Context ⦃fl = wholes⦄) × (o ≡ some t) × ((p : ℕ) → t.live p ≡ false))
unfolding program
drop-frees_example = drop-frees ⦃fl = wholes⦄ third third-Listed 3 (omega arith)
