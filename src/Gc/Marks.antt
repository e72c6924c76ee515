-- ===== src/Gc/Marks.antt =====
-- gc-arena/src/context.rs: what tracing does to the colors and to the queue of gray objects.
use luster.Prelude.{
  ℕ, suc, ◌+◌, ◌*◌, ◌≤◌, ◌≡◌, refl, ◌⊎◌, inl, Bool, true, false, ◌&&◌, List, [], ◌∷◌, length, has,
  arith, if◌then◌else◌,
}
use luster.Prelude.Run.{done}
use luster.Float.{Float}
use luster.Gc.{GcColor, gray, black, is_white, put, Context}
use luster.Gc.Collect.{trace, trace_all}

abbrev pub mark_color : (ℕ → Bool) → ℕ → (ℕ → GcColor) → ℕ → GcColor
mark_color nt p color =
    if is_white (color p) then put color p (if nt p then gray else black) else color

abbrev pub mark_queue : (ℕ → Bool) → ℕ → (ℕ → GcColor) → List ℕ → List ℕ
mark_queue nt p color queue = if is_white (color p) && nt p then p ∷ queue else queue

-- The colors and the queue when the boxes at `cs` have been traced.
unfoldable pub mark_colors : (ℕ → Bool) → List ℕ → (ℕ → GcColor) → ℕ → GcColor
mark_colors nt [] color = color
mark_colors nt (c ∷ cs) color = mark_colors nt cs (mark_color nt c color)

unfoldable pub mark_queues : (ℕ → Bool) → List ℕ → (ℕ → GcColor) → List ℕ → List ℕ
mark_queues nt [] color queue = queue
mark_queues nt (c ∷ cs) color queue =
    mark_queues nt cs (mark_color nt c color) (mark_queue nt c color queue)

module _ ⦃fl : Float⦄ where
  trace-mark :
      (p : ℕ) (s : Context)
      → s.live p ≡ true
      → trace p s
        ≡ done (record s {
          color = mark_color s.needs_trace p s.color;
          gray_queue = mark_queue s.needs_trace p s.color s.gray_queue;
        })
  unfolding trace
  trace-mark p s l = ground arith

  -- Tracing changes nothing else, and reads no box that is not there.
  pub trace_all-marks :
      (cs : List ℕ) (s : Context)
      → ((c : ℕ) → has c cs ≡ true → s.live c ≡ true)
      → trace_all cs s
        ≡ done (record s {
          color = mark_colors s.needs_trace cs s.color;
          gray_queue = mark_queues s.needs_trace cs s.color s.gray_queue;
        })
  unfolding trace_all mark_colors mark_queues
  trace_all-marks [] s l = refl
  trace_all-marks (c ∷ cs) s l = rw (trace-mark c s (l c (ground arith))) (
      trace_all-marks cs
        (record s {
          color = mark_color s.needs_trace c s.color;
          gray_queue = mark_queue s.needs_trace c s.color s.gray_queue;
        })
        (λ d h. l d (ground arith)))

-- What tracing `cs` makes of the colors and of the queue.
pub record Marked (nt : ℕ → Bool) (cs : List ℕ) (color : ℕ → GcColor) (queue : List ℕ)
    (color' : ℕ → GcColor) (queue' : List ℕ) : Type 0 where
  pub keeps : (q : ℕ) → is_white (color q) ≡ false → color' q ≡ color q
  pub marks : (q : ℕ) → has q cs ≡ true → is_white (color' q) ≡ false
  pub only :
      (q : ℕ) → is_white (color' q) ≡ false → (is_white (color q) ≡ false) ⊎ (has q cs ≡ true)
  pub grays : (q : ℕ) → color' q ≡ gray → (color q ≡ gray) ⊎ (has q queue' ≡ true)
  pub blacks : (q : ℕ) → color' q ≡ black → (color q ≡ black) ⊎ (nt q ≡ false)
  pub queued : (q : ℕ) → has q queue ≡ true → has q queue' ≡ true
  pub queues : (q : ℕ) → has q queue' ≡ true → (has q queue ≡ true) ⊎ (has q cs ≡ true)

pub mark-Marked :
    (nt : ℕ → Bool) (cs : List ℕ) (color : ℕ → GcColor) (queue : List ℕ)
    → Marked nt cs color queue (mark_colors nt cs color) (mark_queues nt cs color queue)
unfolding mark_colors mark_queues put
mark-Marked nt [] color queue = record {
  keeps = λ q h. refl;
  marks = λ q h. cc;
  only = λ q h. inl h;
  grays = λ q h. inl h;
  blacks = λ q h. inl h;
  queued = λ q h. h;
  queues = λ q h. inl h;
}
mark-Marked nt (c ∷ cs) color queue =
    let m = mark-Marked nt cs (mark_color nt c color) (mark_queue nt c color queue) in
    record {
      keeps = λ q h. ground (arith, m.keeps q);
      marks = λ q h. ground (arith, m.keeps q, m.marks q);
      only = λ q h. ground (arith, m.only q);
      grays = λ q h. ground (arith, m.grays q, m.queued q);
      blacks = λ q h. ground (arith, m.blacks q);
      queued = λ q h. ground (arith, m.queued q);
      queues = λ q h. ground (arith, m.queues q);
    }

-- The white boxes among `dom`.
unfoldable pub whites : (ℕ → GcColor) → List ℕ → ℕ
whites color [] = 0
whites color (x ∷ xs) = if is_white (color x) then suc (whites color xs) else whites color xs

pub whites-put-le :
    (color : ℕ → GcColor) (p : ℕ) (v : GcColor) (dom : List ℕ)
    → is_white v ≡ false
    → whites (put color p v) dom ≤ whites color dom
unfolding whites put
whites-put-le color p v [] h = omega arith
whites-put-le color p v (x ∷ xs) h = ground (arith, whites-put-le color p v xs h)

pub whites-put-lt :
    (color : ℕ → GcColor) (p : ℕ) (v : GcColor) (dom : List ℕ)
    → is_white v ≡ false
    → is_white (color p) ≡ true
    → has p dom ≡ true
    → suc (whites (put color p v) dom) ≤ whites color dom
unfolding whites put
whites-put-lt color p v [] h w m = cc
whites-put-lt color p v (x ∷ xs) h w m =
    ground (arith, whites-put-le color p v xs h, whites-put-lt color p v xs h w)

-- Every box that enters the queue is one white box less.
pub whites-mark :
    (nt : ℕ → Bool) (cs : List ℕ) (color : ℕ → GcColor) (queue dom : List ℕ)
    → ((c : ℕ) → has c cs ≡ true → has c dom ≡ true)
    → whites (mark_colors nt cs color) dom * 2 + length (mark_queues nt cs color queue)
      ≤ whites color dom * 2 + length queue
unfolding mark_colors mark_queues
whites-mark nt [] color queue dom h = omega arith
whites-mark nt (c ∷ cs) color queue dom h = ground (
  arith,
  whites-mark nt cs (mark_color nt c color) (mark_queue nt c color queue) dom
      (λ d m. h d (ground arith)),
  whites-put-lt color c gray dom,
  whites-put-lt color c black dom,
  h c,
)

pub whites-le : (color : ℕ → GcColor) (dom : List ℕ) → whites color dom ≤ length dom
unfolding whites
whites-le color [] = omega arith
whites-le color (x ∷ xs) = ground (arith, whites-le color xs)
