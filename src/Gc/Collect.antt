-- ===== src/Gc/Collect.antt =====
-- gc-arena/src/context.rs: tracing, the rounds of `do_collection`, and the loop.
use luster.Prelude.{
  ℕ, zero, suc, ◌-◌, ◌^◌, max, Bool, false, not, Option, none, some, List, [], ◌∷◌, ◌==◌,
  if◌then◌else◌,
}
use luster.Prelude.Run.{Run, done, ◌>>=◌, ◌>>◌, assert, add_checked, sub_checked}
use luster.Float.{Float}
use luster.Gc.{
  white, gray, black, Phase, wake, propagate, sweep, sleep, is_black, put, Root, Context, deref,
  as_f64, ArenaParameters,
}

abbrev pub same_pointer : Option ℕ → ℕ → Bool
same_pointer none p = false
same_pointer (some q) p = q == p

module _ ⦃fl : Float⦄ where
  -- `Context::trace`
  unfoldable pub trace : ℕ → Context → Run Context
  unfolding put
  trace p s = do
    deref p s
    elim (s.color p) [
      | white ↦
          if s.needs_trace p
          then done (record s { color = put s.color p gray; gray_queue = p ∷ s.gray_queue })
          else done (record s { color = put s.color p black })
      | _ ↦ done s
    ]

  -- `Collect::trace` of a value with these pointers.
  unfoldable pub trace_all : List ℕ → Context → Run Context
  unfolding trace
  trace_all [] s = done s
  trace_all (c ∷ cs) s = do t ← trace c s; trace_all cs t

  -- The debt less the work of `n` bytes.
  unfoldable pub less_debt : ℕ → Context → fl.F64
  less_debt n s = fl.max (fl.sub s.allocation_debt (as_f64 n)) (as_f64 0)

  -- A round gives the work that it has done.
  unfoldable pub wake_round : Root → Context → Run (fl.F64 × Context)
  unfolding trace_all less_debt
  wake_round root s = do
    t ← trace_all root.refs s
    done (as_f64 root.size, record t { allocation_debt = less_debt root.size t; phase = propagate })

  -- A gray object is traced and turned black.
  unfoldable pub blacken : ℕ → Context → Run Context
  unfolding trace_all put
  blacken p s = do
    deref p s
    t ← trace_all (s.refs p) s
    done (record t { color = put t.color p black })

  -- The two queues are popped by clauses.
  unfoldable pub propagate_from : List ℕ → List ℕ → Context → Run (fl.F64 × Context)
  unfolding less_debt
  propagate_from (p ∷ ps) again s = do
    deref p s
    t ← blacken p (record s { gray_queue = ps; allocation_debt = less_debt (s.size p) s })
    done (as_f64 (s.size p), t)
  propagate_from [] (p ∷ ps) s = do t ← blacken p (record s { gray_again = ps }); done (as_f64 0, t)
  propagate_from [] [] s = done (as_f64 0, record s { phase = sweep; sweep_ptr = s.all })

  unfoldable pub propagate_round : Context → Run (fl.F64 × Context)
  unfolding propagate_from
  propagate_round s = propagate_from s.gray_queue s.gray_again s

  -- A white object is taken out of the list of all objects.
  unfoldable pub unlink : Option ℕ → ℕ → Context → Run Context
  unfolding put
  unlink (some prev) p s = do deref prev s; done (record s { next = put s.next prev (s.next p) })
  unlink none p s = do assert (same_pointer s.all p); done (record s { all = s.next p })

  -- A white object is unlinked and freed.
  unfoldable pub release : ℕ → Context → Run (fl.F64 × Context)
  unfolding put
  release p s = do
    t ← unlink s.sweep_prev p s
    total ← sub_checked t.total_allocated (t.size p)
    done (
      as_f64 (t.size p),
      record t {
        total_allocated = total;
        allocation_debt = less_debt (t.size p) t;
        live = put t.live p false;
      },
    )

  -- A black object turns white again.
  unfoldable pub retain : ℕ → Context → Run (fl.F64 × Context)
  unfolding put
  retain p s = do
    assert (is_black (s.color p))
    remembered ← add_checked 64 s.remembered_size (s.size p)
    done (
      as_f64 0,
      record s { sweep_prev = some p; remembered_size = remembered; color = put s.color p white },
    )

  -- The bytes to sleep for when `n` bytes have been remembered.
  unfoldable pub pause_size : ArenaParameters → ℕ → ℕ
  pause_size parameters n =
      max
        (fl.as_usize
          (fl.min (fl.round (fl.mul (as_f64 n) parameters.pause_factor)) (as_f64 (2 ^ 64 - 1))))
        parameters.min_sleep

  -- `wakeup_total` at the end of a sweep.
  unfoldable pub next_wakeup : Context → Run ℕ
  unfolding pause_size
  next_wakeup s = add_checked 64 s.total_allocated (pause_size s.parameters s.remembered_size)

  unfoldable pub sweep_from : Option ℕ → Context → Run (fl.F64 × Context)
  sweep_from (some p) s = do
    deref p s
    let t : Context = record s { sweep_ptr = s.next p }
    elim (s.color p) [ white ↦ release p t | _ ↦ retain p t ]
  sweep_from none s = do
    total ← next_wakeup s
    done (
      as_f64 0,
      record s {
        sweep_prev = none;
        phase = sleep;
        allocation_debt = as_f64 0;
        wakeup_total = total;
      },
    )

  unfoldable pub sweep_round : Context → Run (fl.F64 × Context)
  unfolding sweep_from
  sweep_round s = sweep_from s.sweep_ptr s

  -- One round of the loop: `none` where the loop ends by `break`.
  unfoldable pub round_of : Phase → Root → Context → Run (Option (fl.F64 × Context))
  round_of wake root s = do r ← wake_round root s; done (some r)
  round_of propagate root s = do r ← propagate_round s; done (some r)
  round_of sweep root s = do r ← sweep_round s; done (some r)
  round_of sleep root s = done none

  unfoldable pub collect_round : Root → Context → Run (Option (fl.F64 × Context))
  unfolding round_of
  collect_round root s = round_of s.phase root s

  -- `while work > work_done`, on fuel: `none` if it runs out.
  unfoldable pub do_collection :
      ℕ → Root → (work work_done : fl.F64) → Context → Run (Option (fl.F64 × Context))
  do_collection zero root work work_done s = done none
  do_collection (suc fuel) root work work_done s =
      if not (fl.lt work_done work) then done (some (work_done, s)) else (do
        r ← collect_round root s
        elim r [
          | none ↦ done (some (work_done, s))
          | some (w, t) ↦ do_collection fuel root work (fl.add work_done w) t
        ])
