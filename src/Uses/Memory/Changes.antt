-- ===== src/Uses/Memory/Changes.antt =====
-- What the changes of a list of windows add up to at an event, and the order that they are sorted in.
use rdc_tools.Prelude.{
  ℕ, ◌+◌, ◌≤◌, ◌<◌, ◌≡◌, refl, arith, inl, inr, ◌⊎◌, false, true, ◌&&◌, List, [], ◌∷◌, All, sum_of,
  leb, sorted_by, IsOrdered, sorted_by-IsOrdered, if◌then◌else◌,
}
use rdc_tools.Uses.Memory.{
  Window, Delta, gain, loss, Change, known, changes, delta_before, change_before,
}

-- The bytes of a window at an event, and those of all.
abbrev pub bytes_at : ℕ → ℕ → Window → ℕ
bytes_at end e w = if leb (known end w).first e && leb e (known end w).last then w.size else 0

abbrev pub live_at : List Window → ℕ → ℕ → ℕ
live_at ws end e = sum_of (bytes_at end e) ws

-- What is gained and lost up to an event.
abbrev pub gain_until : ℕ → Change → ℕ
gain_until e (eid, gain n) = if leb eid e then n else 0
gain_until e (eid, loss n) = 0

abbrev pub loss_until : ℕ → Change → ℕ
loss_until e (eid, gain n) = 0
loss_until e (eid, loss n) = if leb eid e then n else 0

abbrev pub gained_until : ℕ → List Change → ℕ
gained_until e cs = sum_of (gain_until e) cs

abbrev pub lost_until : ℕ → List Change → ℕ
lost_until e cs = sum_of (loss_until e) cs

delta_before_total : (x y : Delta) → delta_before x y ≡ false → delta_before y x ≡ true
delta_before_total (gain m) (gain n) h = ground arith
delta_before_total (gain m) (loss n) h = refl
delta_before_total (loss m) (gain n) h = absurd (ground arith)
delta_before_total (loss m) (loss n) h = ground arith

delta_before_trans :
    (x y z : Delta) → delta_before x y ≡ true → delta_before y z ≡ true → delta_before x z ≡ true
delta_before_trans (gain m) (gain n) (gain k) g h = ground arith
delta_before_trans (gain m) (gain n) (loss k) g h = ground arith
delta_before_trans (gain m) (loss n) (gain k) g h = ground arith
delta_before_trans (gain m) (loss n) (loss k) g h = ground arith
delta_before_trans (loss m) (gain n) (gain k) g h = refl
delta_before_trans (loss m) (gain n) (loss k) g h = ground arith
delta_before_trans (loss m) (loss n) (gain k) g h = refl
delta_before_trans (loss m) (loss n) (loss k) g h = ground arith

pub change_before_total : (c d : Change) → change_before c d ≡ false → change_before d c ≡ true
change_before_total (a, x) (b, y) h = ground (arith, delta_before_total x y)

pub change_before_trans :
    (c d e : Change)
    → change_before c d ≡ true
    → change_before d e ≡ true
    → change_before c e ≡ true
change_before_trans (a, x) (b, y) (c, z) g h = ground (arith, delta_before_trans x y z)

-- An event is not before those of the changes.
abbrev pub IsFrom : ℕ → List Change → Type 0
IsFrom m cs = All (λ c. m ≤ c.0) cs

pub behind_first :
    (c : Change) (cs : List Change) → All (λ d. change_before c d ≡ true) cs → IsFrom c.0 cs
behind_first c [] a = tt
behind_first c (d ∷ cs) (h, a) = (ground (arith, h), behind_first c cs a)

pub gained_early : (e : ℕ) (m : ℕ) (cs : List Change) → e < m → IsFrom m cs → gained_until e cs ≡ 0
gained_early e m [] l a = refl
gained_early e m ((eid, gain n) ∷ cs) l (h, a) = ground (arith, gained_early e m cs l a)
gained_early e m ((eid, loss n) ∷ cs) l (h, a) = ground (arith, gained_early e m cs l a)

abbrev pub gain_of : Delta → ℕ
gain_of (gain n) = n
gain_of (loss n) = 0

abbrev pub loss_of : Delta → ℕ
loss_of (gain n) = 0
loss_of (loss n) = n

-- Behind a change that gains, no change of its event loses.
pub lost_none :
    (eid : ℕ) (delta : Delta) (cs : List Change)
    → 0 < gain_of delta
    → All (λ d. change_before (eid, delta) d ≡ true) cs
    → lost_until eid cs ≡ 0
lost_none eid (loss n) cs l a = absurd (omega arith)
lost_none eid (gain n) [] l a = refl
lost_none eid (gain n) ((e, gain m) ∷ cs) l (h, a) = ground (arith, lost_none eid (gain n) cs l a)
lost_none eid (gain n) ((e, loss m) ∷ cs) l (h, a) = ground (arith, lost_none eid (gain n) cs l a)

-- The windows of the resources that are used end where they begin, or behind.
abbrev pub IsWindow : Window → Type 0
IsWindow w = (w.first ≡ 0) ⊎ (w.first ≤ w.last)

known_window :
    (end : ℕ) (w : Window)
    → IsWindow w
    → (1 ≤ (known end w).first) × ((known end w).first ≤ (known end w).last)
known_window end w (inl e) = ground arith
known_window end w (inr e) = ground arith

-- Up to each event, what is gained is what is lost and what is live.
pub gained-live :
    (end e : ℕ) (ws : List Window)
    → All IsWindow ws
    → gained_until e (changes end ws) ≡ live_at ws end e + lost_until e (changes end ws)
gained-live end e [] h = omega arith
gained-live end e (w ∷ ws) (h, hs) =
    let (one, le) = known_window end w h in ground (arith, gained-live end e ws hs)

pub live_none : (end : ℕ) (ws : List Window) → All IsWindow ws → live_at ws end 0 ≡ 0
live_none end [] h = refl
live_none end (w ∷ ws) (h, hs) =
    let (one, le) = known_window end w h in ground (arith, live_none end ws hs)

pub changes-IsOrdered :
    (end : ℕ) (ws : List Window)
    → IsOrdered change_before (sorted_by change_before (changes end ws))
changes-IsOrdered end ws =
    sorted_by-IsOrdered change_before change_before_total change_before_trans (changes end ws)
