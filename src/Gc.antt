-- ===== src/Gc.antt =====
-- gc-arena/src/context.rs, gc-arena/src/types.rs and gc-arena/src/arena.rs: the state of the arena and
-- its allocation. Every field of the boxes in memory is a map of its own from addresses, so that a
-- write to one field leaves the others as they are; `live` says which addresses hold a box. The
-- addresses that `Collect::trace` visits for a box are its `refs`. A read through a pointer to no box
-- and a failed `debug_assert` are panics. The bytes of
-- all boxes are not bounded, but may not go below 0; the sums that the sweep makes are of `usize`.
use luster.Prelude.{
  ℕ, ◌+◌, ◌-◌, ltb, leb, Bool, true, false, not, ◌&&◌, Option, none, some, List, [], ◌∷◌, ◌==◌,
  if◌then◌else◌, ◌≡◌, arith,
}
use luster.Prelude.Int.{ℤ, pos}
use luster.Prelude.Run.{Run, done, panic, ◌>>=◌, ◌>>◌, assert}
use luster.Float.{Float}
pub mod Collect
pub mod Marks
pub mod Sizes
pub mod Links
pub mod Valid
pub mod Flags
pub mod Allocate
pub mod Write
pub mod Mark
pub mod Advance
pub mod Rounds
pub mod Propagate
pub mod Sweep
pub mod Cycle
pub mod Steps
pub mod Start
pub mod Runs
pub mod Arena
pub mod Free
mod Tests

pub data GcColor : Type 0 where
  white gray black : GcColor

pub data Phase : Type 0 where
  wake propagate sweep sleep : Phase

abbrev pub is_white : GcColor → Bool
is_white white = true
is_white _ = false

abbrev pub is_black : GcColor → Bool
is_black black = true
is_black _ = false

abbrev pub is_sleep : Phase → Bool
is_sleep sleep = true
is_sleep _ = false

abbrev pub is_sweep : Phase → Bool
is_sweep sweep = true
is_sweep _ = false

abbrev pub is_propagate : Phase → Bool
is_propagate propagate = true
is_propagate _ = false

-- One field of one box, written.
unfoldable pub put : {A : Type 0} → (ℕ → A) → ℕ → A → ℕ → A
put f p v q = if q == p then v else f q

pub put_self : {A : Type 0} (f : ℕ → A) (p : ℕ) (v : A) → put f p v p ≡ v
unfolding put
put_self f p v = ground arith

is_none : Option ℕ → Bool
is_none none = true
is_none (some _) = false

-- The root object: its pointers and its size in bytes.
pub record Root : Type 0 where
  pub refs : List ℕ
  pub size : ℕ

module _ ⦃fl : Float⦄ where
  pub record ArenaParameters : Type 0 where
    pub pause_factor : fl.F64
    pub timing_factor : fl.F64
    pub min_sleep : ℕ

  pub record Context : Type 0 where
    pub parameters : ArenaParameters
    pub phase : Phase
    pub total_allocated : ℕ
    pub remembered_size : ℕ
    pub wakeup_total : ℕ
    pub allocation_debt : fl.F64
    pub all : Option ℕ
    pub sweep_ptr : Option ℕ
    pub sweep_prev : Option ℕ
    -- the last element of the `Vec` first
    pub gray_queue : List ℕ
    pub gray_again : List ℕ
    pub live : ℕ → Bool
    pub color : ℕ → GcColor
    pub needs_trace : ℕ → Bool
    pub next : ℕ → Option ℕ
    pub size : ℕ → ℕ
    pub refs : ℕ → List ℕ

  -- `n as f64`
  abbrev pub as_f64 : ℕ → fl.F64
  as_f64 n = fl.of_ℤ (pos n)

  -- `Context::new`; the memory holds no box.
  abbrev pub new : ArenaParameters → Context
  new parameters = record {
    parameters = parameters;
    phase = wake;
    total_allocated = 0;
    remembered_size = 0;
    wakeup_total = 0;
    allocation_debt = as_f64 0;
    all = none;
    sweep_ptr = none;
    sweep_prev = none;
    gray_queue = [];
    gray_again = [];
    live = λ _. false;
    color = λ _. white;
    needs_trace = λ _. false;
    next = λ _. none;
    size = λ _. 0;
    refs = λ _. [];
  }

  -- `Context::wake`
  unfoldable pub wake_up : Context → Context
  wake_up s = if is_sleep s.phase then record s { phase = wake } else s

  -- A read through the pointer `p`.
  abbrev pub deref : ℕ → Context → Run (Unit {0})
  deref p s = assert (s.live p)

  -- The debt that an allocation of `n` bytes adds.
  unfoldable pub more_debt : ℕ → Context → fl.F64
  more_debt n s =
      fl.add (fl.add s.allocation_debt (as_f64 n)) (fl.div (as_f64 n) s.parameters.timing_factor)

  -- `Context::allocate`, for the address `p` that `Box::new` returns.
  unfoldable pub allocate : ℕ → (size : ℕ) (needs_trace : Bool) (refs : List ℕ) → Context → Context
  unfolding more_debt is_none put
  allocate p size needs_trace refs s =
      let total = s.total_allocated + size in
      let phase = if is_sleep s.phase && ltb s.wakeup_total total then wake else s.phase in
      record s {
        total_allocated = total;
        phase = phase;
        allocation_debt = if is_sleep phase then s.allocation_debt else more_debt size s;
        all = some p;
        sweep_prev = if is_sweep phase && is_none s.sweep_prev then some p else s.sweep_prev;
        live = put s.live p true;
        color = put s.color p white;
        needs_trace = put s.needs_trace p needs_trace;
        next = put s.next p s.all;
        size = put s.size p size;
        refs = put s.refs p refs;
      }

  -- `Context::write_barrier`
  unfoldable pub write_barrier : ℕ → Context → Run Context
  unfolding put
  write_barrier p s = do
    deref p s
    done (
        if is_propagate s.phase && is_black (s.color p)
        then record s { color = put s.color p gray; gray_again = p ∷ s.gray_again }
        else s)

  -- `GcCell::write`, and the mutation that it allows; `borrowed` are the cells that `RefCell` has a
  -- borrow of at the call.
  unfoldable pub write : (borrowed : ℕ → Bool) → ℕ → List ℕ → Context → Run Context
  unfolding write_barrier put
  write borrowed p refs s = do
    deref p s
    assert (not (borrowed p))
    t ← write_barrier p s
    done (record t { refs = put t.refs p refs })
