-- ===== src/Uses/Memory.antt =====
-- `_peak_live` of src/py/rdc_uses.py: the most bytes that are live at one event. A number below zero
-- is the difference of two: what has been gained, and what has been lost.
pub mod Changes
pub mod Peak
use rdc_tools.Prelude.{
  ℕ, ◌+◌, ◌-◌, max, Bool, false, true, ◌&&◌, ◌||◌, List, [], ◌∷◌, leb, ltb, ◌==◌, sorted_by,
  if◌then◌else◌,
}

-- A first use, a last use and a number of bytes.
pub record Window : Type 0 where
  pub first : ℕ
  pub last : ℕ
  pub size : ℕ

-- The bytes that an event adds or takes away.
pub data Delta : Type 0 where
  gain loss : ℕ → Delta

abbrev pub Change : Type 0
Change = ℕ × Delta

-- A window that is not known lasts as long as the capture.
abbrev pub known : ℕ → Window → Window
known end w = if w.first == 0 then record { first = 1; last = max end 1; size = w.size } else w

abbrev pub changes : ℕ → List Window → List Change
changes end [] = []
changes end (w ∷ ws) =
    ((known end w).first, gain (known end w).size)
    ∷ ((known end w).last + 1, loss (known end w).size)
    ∷ changes end ws

abbrev pub delta_before : Delta → Delta → Bool
delta_before (gain m) (gain n) = leb m n
delta_before (gain m) (loss n) = m == 0 && n == 0
delta_before (loss m) (gain n) = true
delta_before (loss m) (loss n) = leb n m

abbrev pub change_before : Change → Change → Bool
change_before (a, x) (b, y) = ltb a b || (a == b && delta_before x y)

-- `live` is `gained - lost`.
pub record Sweep : Type 0 where
  pub gained : ℕ
  pub lost : ℕ
  pub peak : ℕ
  pub at : ℕ

abbrev pub apply_delta : Delta → Sweep → Sweep
apply_delta (gain n) s = record s { gained = s.gained + n }
apply_delta (loss n) s = record s { lost = s.lost + n }

-- `if live > peak: peak, at = live, eid`
abbrev pub raise_peak : ℕ → Sweep → Sweep
raise_peak eid s =
    if ltb (s.peak + s.lost) s.gained then record s { peak = s.gained - s.lost; at = eid } else s

unfoldable pub sweep_change : Change → Sweep → Sweep
sweep_change (eid, delta) s = raise_peak eid (apply_delta delta s)

unfoldable pub sweep : List Change → Sweep → Sweep
sweep [] s = s
sweep (c ∷ cs) s = sweep cs (sweep_change c s)

unfoldable pub peak_live : List Window → ℕ → ℕ × ℕ
peak_live windows end =
    let s =
      sweep (sorted_by change_before (changes end windows))
        (record { gained = 0; lost = 0; peak = 0; at = 0 }) in
    (s.peak, s.at)
