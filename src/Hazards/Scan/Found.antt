-- ===== src/Hazards/Scan/Found.antt =====
-- Which findings the scan makes: one for each use in the ledger that its conditions refuse, and no
-- other.
use mathlib.Core.Path.{subst}
use mathlib.Core.List.{Memᴰ}
use mathlib.Core.List.Memᴰ
use rdc_tools.Prelude.{
  ℕ, ◌≡◌, ◌≢◌, refl, sym, ap, arith, ◌↔◌, ◌⊎◌, inl, inr, false, Option, none, some, List, [], ◌∷◌,
  ◌++◌, ◌==◌, codes, Bool-cases, if_cases, option_cases,
}
use rdc_tools.Uses.{How, barrier, discard, UseInfo, ResourceUse}
use rdc_tools.Names.{ChunkNames}
use rdc_tools.Barriers.{parsed, struct_error}
use rdc_tools.Barriers.Words.{state_text}
use rdc_tools.Hazards.States.{Certainty, check_state, without_list}
use rdc_tools.Hazards.Track.{state_track, Tracked, state_at}
use rdc_tools.Hazards.Track.Clash.{contains}
use rdc_tools.Hazards.Scan.{
  HazardFinding, HazardCounts, state_kind, is_passed, use_state, state_finding, scan_use, scan_uses,
  scan_states, no_counts, lists_of, scan_hazards,
}

snoc_cases {ℓ} :
    {A : Type ℓ} (x y : A) (xs : List A) → Memᴰ x (xs ++ (y ∷ [])) → Memᴰ x xs ⊎ (x ≡ y)
snoc_cases x y xs m = elim (Memᴰ.append_cases xs m) [
  | inl a ↦ inl a
  | inr b ↦ inr (Memᴰ.eq_of_singleton b)
]

not_passed : (how : How) → is_passed how ≡ false → (how ≢ barrier) × (how ≢ discard)
not_passed how e = (λ h. cc (rw h at e), λ h. cc (rw h at e))

passed_or : (how : How) → how ≢ barrier → how ≢ discard → is_passed how ≡ false
passed_or barrier a b = absurd (a refl)
passed_or discard a b = absurd (b refl)
passed_or _ a b = refl

module _ (t : Tracked) (lists : ℕ → ℕ) (table : ℕ → List ℕ) where
  -- A use, neither a barrier nor a discard, in a state that its own command list left the resource in
  -- and that check_state refuses; the finding has the use's own event, call, kind and detail.
  abbrev pub IsHazard : ℕ → UseInfo → HazardFinding → Type 0
  IsHazard rid u f =
      (state : ℕ) × (sure : Certainty) × (needed : ℕ) × (u.how ≢ barrier)
      × (u.how ≢ discard)
      × (lists u.eid ≢ 0)
      × (state_at t.track rid (lists u.eid) u.eid ≡ some state)
      × (check_state u.how u.call state ≡ some (sure, needed))
      × (f ≡ record {
        kind = state_kind;
        certainty = sure;
        rid = rid;
        name = table rid;
        eid = u.eid;
        call = without_list 0 (codes u.call);
        how = u.how;
        detail = u.detail;
        state = state_text state;
        needed = state_text needed;
      })

  abbrev pub HasHazard : ℕ → List UseInfo → HazardFinding → Type 0
  HasHazard rid us f = (u : UseInfo) × Memᴰ u us × IsHazard rid u f

  -- One use of one resource of the ledger that is not ambiguous.
  abbrev pub IsFound : List (ℕ × ResourceUse) → HazardFinding → Type 0
  IsFound resources f =
      (rid : ℕ) × (r : ResourceUse) × Memᴰ (rid, r) resources
      × (contains rid t.ambiguous ≡ false)
      × HasHazard rid r.uses f

  Holds : HazardFinding → HazardCounts → Type 0
  Holds f counts = Memᴰ f counts.findings

  -- What holds behind a step: the finding was there, or the step's own reason for it.
  Explains : HazardFinding → HazardCounts → Type 0 → HazardCounts → Type 0
  Explains f before reason after = Memᴰ f after.findings → Memᴰ f before.findings ⊎ reason

  use_state_lem :
      (rid state : ℕ) (u : UseInfo)
      → use_state t lists table rid u ≡ some state
      → (lists u.eid ≢ 0) × (state_at t.track rid (lists u.eid) u.eid ≡ some state)
  use_state_lem rid state u e = elim (Bool-cases (lists u.eid == 0)) [
    | inl z ↦ let never = rw z at e in cc
    | inr n ↦ (λ z. ground (arith, n, z), rw n at e)
  ]

  scan_use-Explains :
      (rid : ℕ) (counts : HazardCounts) (u : UseInfo) (f : HazardFinding)
      → Explains f counts (IsHazard rid u f) (scan_use t lists table rid counts u)
  unfolding scan_use Explains
  scan_use-Explains rid counts u f =
      if_cases (Explains f counts (IsHazard rid u f)) (is_passed u.how) _ _ (λ e m. inl m)
        (λ e.
          option_cases (Explains f counts (IsHazard rid u f)) (use_state t lists table rid u) _ _
            (λ n m. inl m)
            (λ state s.
              option_cases (Explains f counts (IsHazard rid u f)) (check_state u.how u.call state) _
                _ (λ n m. inl m)
                (λ (sure, needed) c m.
                  elim (snoc_cases f (state_finding t lists table rid u state (sure, needed))
                    counts.findings m) [
                      | inl old ↦ inl old
                      | inr same ↦
                          let (a, b) = not_passed u.how e in
                          let (l, w) = use_state_lem rid state u s in
                          inr (state, sure, needed, a, b, l, w, c, same)
                    ])))

  scan_use-Holds :
      (rid : ℕ) (counts : HazardCounts) (u : UseInfo) (f : HazardFinding)
      → Memᴰ f counts.findings
      → Holds f (scan_use t lists table rid counts u)
  unfolding scan_use Holds
  scan_use-Holds rid counts u f m =
      if_cases (Holds f) (is_passed u.how) _ _ (λ e. m)
        (λ e.
          option_cases (Holds f) (use_state t lists table rid u) _ _ (λ n. m)
            (λ state s.
              option_cases (Holds f) (check_state u.how u.call state) _ _ (λ n. m)
                (λ verdict c. Memᴰ.append_left _ m)))

  hazard-Holds :
      (rid : ℕ) (counts : HazardCounts) (u : UseInfo) (f : HazardFinding)
      → IsHazard rid u f
      → Holds f (scan_use t lists table rid counts u)
  unfolding scan_use Holds
  hazard-Holds rid counts u f (state, sure, needed, a, b, l, w, c, same) =
      let listed : (lists u.eid == 0) ≡ false = ground (arith, l) in
      rw (scan_use, passed_or u.how a b, listed, w, c)
        (Memᴰ.append_right counts.findings (Memᴰ.head same))

  scan_uses-Explains :
      (rid : ℕ) (us : List UseInfo) (counts : HazardCounts) (f : HazardFinding)
      → Explains f counts (HasHazard rid us f) (scan_uses t lists table rid counts us)
  unfolding scan_uses Explains
  scan_uses-Explains rid [] counts f m = inl m
  scan_uses-Explains rid (u ∷ us) counts f m =
      elim (scan_uses-Explains rid us (scan_use t lists table rid counts u) f m) [
        | inr (v, at, h) ↦ inr (v, Memᴰ.tail at, h)
        | inl old ↦ elim (scan_use-Explains rid counts u f old) [
          | inl older ↦ inl older
          | inr h ↦ inr (u, Memᴰ.head refl, h)
        ]
      ]

  scan_uses-Holds :
      (rid : ℕ) (us : List UseInfo) (counts : HazardCounts) (f : HazardFinding)
      → Memᴰ f counts.findings
      → Holds f (scan_uses t lists table rid counts us)
  unfolding scan_uses Holds
  scan_uses-Holds rid [] counts f m = m
  scan_uses-Holds rid (u ∷ us) counts f m =
      scan_uses-Holds rid us (scan_use t lists table rid counts u) f
        (scan_use-Holds rid counts u f m)

  used-Holds :
      (rid : ℕ) (us : List UseInfo) (counts : HazardCounts) (f : HazardFinding) (u : UseInfo)
      → Memᴰ u us
      → IsHazard rid u f
      → Holds f (scan_uses t lists table rid counts us)
  unfolding scan_uses Holds
  used-Holds rid [] counts f u at h = absurd (Memᴰ.not-nil at)
  used-Holds rid (v ∷ us) counts f u at h = elim (Memᴰ.cases_cons at) [
    | inl e ↦
        scan_uses-Holds rid us (scan_use t lists table rid counts v) f
          (hazard-Holds rid counts v f (rw e at h))
    | inr later ↦ used-Holds rid us (scan_use t lists table rid counts v) f u later h
  ]

  scan_states-Explains :
      (resources : List (ℕ × ResourceUse)) (counts : HazardCounts) (f : HazardFinding)
      → Explains f counts (IsFound resources f) (scan_states t lists table counts resources)
  unfolding scan_states Explains
  scan_states-Explains [] counts f m = inl m
  scan_states-Explains ((rid, r) ∷ resources) counts f m =
      elim (scan_states-Explains resources _ f m) [
        | inr (k, s, at, n, h) ↦ inr (k, s, Memᴰ.tail at, n, h)
        | inl old ↦ elim (Bool-cases (contains rid t.ambiguous)) [
          | inl e ↦ inl (rw e at old)
          | inr e ↦ elim (scan_uses-Explains rid r.uses counts f (rw e at old)) [
            | inl older ↦ inl older
            | inr h ↦ inr (rid, r, Memᴰ.head refl, e, h)
          ]
        ]
      ]

  scan_states-Holds :
      (resources : List (ℕ × ResourceUse)) (counts : HazardCounts) (f : HazardFinding)
      → Memᴰ f counts.findings
      → Holds f (scan_states t lists table counts resources)
  unfolding scan_states Holds
  scan_states-Holds [] counts f m = m
  scan_states-Holds ((rid, r) ∷ resources) counts f m = scan_states-Holds resources _ f (
      if_cases (Holds f) (contains rid t.ambiguous) _ _ (λ e. m)
        (λ e. scan_uses-Holds rid r.uses counts f m))

  found-Holds :
      (resources : List (ℕ × ResourceUse)) (counts : HazardCounts) (f : HazardFinding)
      → IsFound resources f
      → Holds f (scan_states t lists table counts resources)
  unfolding scan_states Holds
  found-Holds [] counts f (rid, r, at, n, h) = absurd (Memᴰ.not-nil at)
  found-Holds ((k, s) ∷ resources) counts f (rid, r, at, n, (u, here, h)) =
      elim (Memᴰ.cases_cons at) [
        | inl e ↦
            let same : rid ≡ k = ap (λ x. x.0) e in
            let uses : r.uses ≡ s.uses = ap (λ x. x.1.uses) e in
            scan_states-Holds resources _ f
              (rw (sym same, n) (used-Holds rid s.uses counts f u (rw uses at here) h))
        | inr later ↦ found-Holds resources _ f (rid, r, later, n, (u, here, h))
      ]

counts_from :
    (lists : ℕ → ℕ) (table : ℕ → List ℕ) (resources : List (ℕ × ResourceUse)) (o : Option Tracked)
    (counts : HazardCounts)
    → elim o [
      | none ↦ struct_error
      | some t ↦ parsed (scan_states t lists table no_counts resources)
    ]
      ≡ parsed counts
    → (t : Tracked) × (o ≡ some t) × (scan_states t lists table no_counts resources ≡ counts)
counts_from lists table resources none counts h = cc
counts_from lists table resources (some t) counts h = (t, refl, cc)

counts_of :
    (names : ChunkNames) (stream : List ℕ) (table : ℕ → List ℕ) (resources : List (ℕ × ResourceUse))
    (counts : HazardCounts)
    → scan_hazards names stream table resources ≡ parsed counts
    → (t : Tracked) × (state_track names stream ≡ some t)
      × (scan_states t (lists_of names stream) table no_counts resources ≡ counts)
unfolding scan_hazards
counts_of [] stream table resources counts h = cc
counts_of (entry ∷ names) stream table resources counts h =
    counts_from (lists_of (entry ∷ names) stream) table resources
      (state_track (entry ∷ names) stream) counts h

-- A finding is in the list that the scan of the uses returns exactly where it is that of a use in the
-- ledger, of a resource that is not ambiguous, that is neither a barrier nor a discard, and whose call
-- check_state refuses in the state that the use's own command list left the resource in.
pub scan_hazards_iff :
    (names : ChunkNames) (stream : List ℕ) (table : ℕ → List ℕ) (resources : List (ℕ × ResourceUse))
    (counts : HazardCounts) (f : HazardFinding)
    → scan_hazards names stream table resources ≡ parsed counts
    → (t : Tracked) × (state_track names stream ≡ some t)
      × (Memᴰ f counts.findings ↔ IsFound t (lists_of names stream) table resources f)
unfolding Holds Explains
scan_hazards_iff names stream table resources counts f h =
    let (t, e, same) = counts_of names stream table resources counts h in
    let lists = lists_of names stream in
    let found : (m : Memᴰ f (scan_states t lists table no_counts resources).findings)
        → IsFound t lists table resources f =
      λ m. elim (scan_states-Explains t lists table resources no_counts f m) [
        | inl never ↦ absurd (Memᴰ.not-nil never)
        | inr k ↦ k
      ] in
    let all = found-Holds t lists table resources no_counts f in
    (t, e, subst (λ c. Memᴰ f c.findings ↔ IsFound t lists table resources f) same (found, all))
