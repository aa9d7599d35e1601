-- ===== src/Uses/Memory/Peak.antt =====
-- The peak that `_peak_live` finds is the most bytes that are live at one event.
use rdc_tools.Prelude.{
  ℕ, ◌+◌, ◌≤◌, ◌<◌, ◌≡◌, refl, arith, inl, inr, ◌⊎◌, List, [], ◌∷◌, All, leb, ltb, leb→le,
  sorted_by, IsOrdered, sum_of-sorted_by, Bool-cases, ◌∙◌, sym,
}
use mathlib.Core.Path.{subst, ap}
use rdc_tools.Uses.Memory.{
  Window, Delta, gain, loss, Change, changes, change_before, Sweep, sweep_change, sweep, peak_live,
}
use rdc_tools.Uses.Memory.Changes.{
  live_at, gain_until, loss_until, gained_until, lost_until, IsFrom, IsWindow, behind_first,
  gained_early, lost_none, gain_of, loss_of, gained-live, live_none, changes-IsOrdered,
}

-- What one change does: the peak grows, or stays.
record Stepped (eid : ℕ) (delta : Delta) (s t : Sweep) : Type 0 where
  gained : t.gained ≡ s.gained + gain_of delta
  lost : t.lost ≡ s.lost + loss_of delta
  bounded : s.gained ≤ s.peak + s.lost → t.gained ≤ t.peak + t.lost
  peak :
      ((t.peak ≡ s.peak) × (t.at ≡ s.at))
      ⊎ ((t.at ≡ eid) × (t.peak + t.lost ≡ t.gained) × (s.peak + t.lost < t.gained))

stepped : (eid : ℕ) (delta : Delta) (s : Sweep) → Stepped eid delta s (sweep_change (eid, delta) s)
unfolding sweep_change
stepped eid (gain n) s = elim (Bool-cases (ltb (s.peak + s.lost) (s.gained + n))) [
  | inl e ↦ rw e (record {
    gained = omega arith;
    lost = omega arith;
    bounded = λ h. ground (arith, e);
    peak = inr (refl, ground (arith, e), ground (arith, e));
  })
  | inr e ↦ rw e (record {
    gained = omega arith;
    lost = omega arith;
    bounded = λ h. ground (arith, e);
    peak = inl (refl, refl);
  })
]
stepped eid (loss n) s = elim (Bool-cases (ltb (s.peak + (s.lost + n)) s.gained)) [
  | inl e ↦ rw e (record {
    gained = omega arith;
    lost = omega arith;
    bounded = λ h. ground (arith, e);
    peak = inr (refl, ground (arith, e), ground (arith, e));
  })
  | inr e ↦ rw e (record {
    gained = omega arith;
    lost = omega arith;
    bounded = λ h. ground (arith, e);
    peak = inl (refl, refl);
  })
]

gained_more :
    (e eid : ℕ) (delta : Delta) (cs : List Change)
    → eid ≤ e
    → gained_until e ((eid, delta) ∷ cs) ≡ gain_of delta + gained_until e cs
gained_more e eid (gain n) cs h = ground arith
gained_more e eid (loss n) cs h = refl

lost_more :
    (e eid : ℕ) (delta : Delta) (cs : List Change)
    → eid ≤ e
    → lost_until e ((eid, delta) ∷ cs) ≡ loss_of delta + lost_until e cs
lost_more e eid (gain n) cs h = refl
lost_more e eid (loss n) cs h = ground arith

peak_grows : (cs : List Change) (s : Sweep) → s.peak ≤ (sweep cs s).peak
unfolding sweep
peak_grows [] s = omega arith
peak_grows ((eid, delta) ∷ cs) s =
    let more = peak_grows cs (sweep_change (eid, delta) s) in
    elim ((stepped eid delta s).peak) [
      | inl (same, _) ↦ omega (arith, same, more)
      | inr (_, high, up) ↦ omega (arith, high, up, more)
    ]

-- No live number of a sweep is above its peak.
peak_bounds :
    (cs : List Change) (s : Sweep) (e : ℕ)
    → IsOrdered change_before cs
    → s.gained ≤ s.peak + s.lost
    → s.gained + gained_until e cs ≤ (sweep cs s).peak + s.lost + lost_until e cs
unfolding sweep
peak_bounds [] s e o h = omega arith
peak_bounds ((eid, delta) ∷ cs) s e (a, o) h = elim (Bool-cases (leb eid e)) [
  | inl t ↦
      let step = stepped eid delta s in
      let rest = peak_bounds cs (sweep_change (eid, delta) s) e o (step.bounded h) in
      let gained = gained_more e eid delta cs (leb→le eid e t) in
      let lost = lost_more e eid delta cs (leb→le eid e t) in
      omega (arith, rest, gained, lost, step.gained, step.lost)
  | inr f ↦
      let early =
        gained_early e eid ((eid, delta) ∷ cs) (ground arith)
          ((omega arith), behind_first (eid, delta) cs a) in
      omega (arith, early, peak_grows ((eid, delta) ∷ cs) s, h)
]

-- Where a sweep raises the peak, it is what is live at the event that it names.
peak_reached :
    (cs : List Change) (s : Sweep) (m : ℕ)
    → IsOrdered change_before cs
    → IsFrom m cs
    → s.gained ≤ s.peak + s.lost
    → (((sweep cs s).peak ≡ s.peak) × ((sweep cs s).at ≡ s.at))
      ⊎ ((m ≤ (sweep cs s).at)
          × (s.gained + gained_until (sweep cs s).at cs
              ≡ (sweep cs s).peak + s.lost + lost_until (sweep cs s).at cs))
unfolding sweep
peak_reached [] s m o f h = inl (refl, refl)
peak_reached ((eid, delta) ∷ cs) s m (a, o) (f, fs) h =
    let t = sweep_change (eid, delta) s in
    let step = stepped eid delta s in
    elim (peak_reached cs t eid o (behind_first (eid, delta) cs a) (step.bounded h)) [
      | inl (same, same_at) ↦ elim (step.peak) [
        | inl (p, q) ↦ inl (same ∙ p, same_at ∙ q)
        | inr (q, high, up) ↦
            let positive : 0 < gain_of delta = omega (arith, up, h, step.gained, step.lost) in
            let unlost = lost_none eid delta cs positive a in
            let bound = peak_bounds cs t eid o (step.bounded h) in
            let gained = gained_more eid eid delta cs (omega arith) in
            let lost = lost_more eid eid delta cs (omega arith) in
            let here = same_at ∙ q in
            inr (
              omega (arith, f, here),
              subst
                  (λ x.
                    s.gained + gained_until x ((eid, delta) ∷ cs)
                    ≡ (sweep cs t).peak + s.lost + lost_until x ((eid, delta) ∷ cs))
                  (sym here)
                  (omega (arith, unlost, bound, gained, lost, same, high, step.gained, step.lost)),
            )
      ]
      | inr (le, eq) ↦
          let gained = gained_more (sweep cs t).at eid delta cs le in
          let lost = lost_more (sweep cs t).at eid delta cs le in
          inr (omega (arith, f, le), omega (arith, eq, gained, lost, step.gained, step.lost))
    ]

not_below_zero : (cs : List Change) → IsFrom 0 cs
not_below_zero [] = tt
not_below_zero (c ∷ cs) = (omega arith, not_below_zero cs)

abbrev start : Sweep
start = record { gained = 0; lost = 0; peak = 0; at = 0 }

-- Where each resource's last use is not before its first: the peak is what is live at the event that is
-- named, and at no event is more live. Live at an event are the bytes of the resources whose window it
-- lies in, and a resource that is not used has the whole capture for its window.
pub peak_live_lem :
    (ws : List Window) (end : ℕ)
    → All IsWindow ws
    → ((peak_live ws end).0 ≡ live_at ws end (peak_live ws end).1)
      × ((e : ℕ) → live_at ws end e ≤ (peak_live ws end).0)
unfolding peak_live
peak_live_lem ws end h =
    let sorted = sorted_by change_before (changes end ws) in
    let s = sweep sorted start in
    (
      elim (peak_reached sorted start 0 (changes-IsOrdered end ws) (not_below_zero sorted)
          (omega arith)) [
            | inl (same, same_at) ↦
                same ∙ sym (live_none end ws h) ∙ ap (live_at ws end) (sym same_at)
            | inr (_, eq) ↦
                let gained = sum_of-sorted_by change_before (gain_until s.at) (changes end ws) in
                let lost = sum_of-sorted_by change_before (loss_until s.at) (changes end ws) in
                omega (arith, eq, gained, lost, gained-live end s.at ws h)
          ],
      λ e.
          let bound = peak_bounds sorted start e (changes-IsOrdered end ws) (omega arith) in
          let gained = sum_of-sorted_by change_before (gain_until e) (changes end ws) in
          let lost = sum_of-sorted_by change_before (loss_until e) (changes end ws) in
          omega (arith, bound, gained, lost, gained-live end e ws h),
    )
