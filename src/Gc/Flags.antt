-- ===== src/Gc/Flags.antt =====
-- gc-arena/src/types.rs: the byte in which a box keeps its color and whether it needs tracing.
use luster.Prelude.{ℕ, ◌+◌, ◌≡◌, refl, Bool, true, false, not, ◌==◌, if◌then◌else◌, bit_and, bit_or}
use luster.Prelude.Run.{Run, done, panic}
use luster.Gc.{GcColor, white, gray, black}

-- The bits of a color.
abbrev pub color_bits : GcColor → ℕ
color_bits white = 0
color_bits gray = 1
color_bits black = 2

-- `GcFlags::new`
abbrev pub new_flags : ℕ
new_flags = 0

-- `GcFlags::color`: two set bits are unreachable.
unfoldable pub color : ℕ → Run GcColor
color flags =
    let bits = bit_and flags 3 in
    if bits == 0
    then done white
    else if bits == 1
    then done gray
    else if bits == 2
    then done black
    else panic

-- `GcFlags::set_color`, where `!0x3` is 252.
unfoldable pub set_color : GcColor → ℕ → ℕ
set_color c flags = bit_or (bit_and flags 252) (color_bits c)

-- `GcFlags::needs_trace`
unfoldable pub needs_trace : ℕ → Bool
needs_trace flags = not (bit_and flags 4 == 0)

-- `GcFlags::set_needs_trace`, where `!0x4` is 251.
unfoldable pub set_needs_trace : Bool → ℕ → ℕ
set_needs_trace b flags = bit_or (bit_and flags 251) (if b then 4 else 0)

-- The byte of a color and of whether the box needs tracing.
abbrev pub flags_of : GcColor → Bool → ℕ
flags_of c b = color_bits c + (if b then 4 else 0)

color-flags_of : (c : GcColor) (b : Bool) → color (flags_of c b) ≡ done c
unfolding color
color-flags_of white true = refl
color-flags_of white false = refl
color-flags_of gray true = refl
color-flags_of gray false = refl
color-flags_of black true = refl
color-flags_of black false = refl

needs_trace-flags_of : (c : GcColor) (b : Bool) → needs_trace (flags_of c b) ≡ b
unfolding needs_trace
needs_trace-flags_of white true = refl
needs_trace-flags_of white false = refl
needs_trace-flags_of gray true = refl
needs_trace-flags_of gray false = refl
needs_trace-flags_of black true = refl
needs_trace-flags_of black false = refl

set_color-flags_of : (d c : GcColor) (b : Bool) → set_color d (flags_of c b) ≡ flags_of d b
unfolding set_color
set_color-flags_of white white true = refl
set_color-flags_of white white false = refl
set_color-flags_of white gray true = refl
set_color-flags_of white gray false = refl
set_color-flags_of white black true = refl
set_color-flags_of white black false = refl
set_color-flags_of gray white true = refl
set_color-flags_of gray white false = refl
set_color-flags_of gray gray true = refl
set_color-flags_of gray gray false = refl
set_color-flags_of gray black true = refl
set_color-flags_of gray black false = refl
set_color-flags_of black white true = refl
set_color-flags_of black white false = refl
set_color-flags_of black gray true = refl
set_color-flags_of black gray false = refl
set_color-flags_of black black true = refl
set_color-flags_of black black false = refl

set_needs_trace-flags_of :
    (d : Bool) (c : GcColor) (b : Bool) → set_needs_trace d (flags_of c b) ≡ flags_of c d
unfolding set_needs_trace
set_needs_trace-flags_of true white true = refl
set_needs_trace-flags_of true white false = refl
set_needs_trace-flags_of true gray true = refl
set_needs_trace-flags_of true gray false = refl
set_needs_trace-flags_of true black true = refl
set_needs_trace-flags_of true black false = refl
set_needs_trace-flags_of false white true = refl
set_needs_trace-flags_of false white false = refl
set_needs_trace-flags_of false gray true = refl
set_needs_trace-flags_of false gray false = refl
set_needs_trace-flags_of false black true = refl
set_needs_trace-flags_of false black false = refl

-- The byte of flags is a record of a color and of whether the box needs tracing: a new byte is
-- white and needs none, each of the two reads back, no read panics, and writing one leaves the
-- other.
pub flags-IsRecord :
    (d : GcColor) (e : Bool) (c : GcColor) (b : Bool)
    → (new_flags ≡ flags_of white false)
      × (color (flags_of c b) ≡ done c)
      × (needs_trace (flags_of c b) ≡ b)
      × (set_color d (flags_of c b) ≡ flags_of d b)
      × (set_needs_trace e (flags_of c b) ≡ flags_of c e)
flags-IsRecord d e c b = (
  refl,
  color-flags_of c b,
  needs_trace-flags_of c b,
  set_color-flags_of d c b,
  set_needs_trace-flags_of e c b,
)
