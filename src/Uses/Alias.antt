-- ===== src/Uses/Alias.antt =====
-- `_write_while_read` and `_pair_conflicts` of src/py/rdc_uses.py: one placed resource written while
-- another that shares its bytes is still being read.
use rdc_tools.Prelude.{
  All, ℕ, ◌≤◌, ◌<◌, ◌≡◌, ◌↔◌, refl, arith, inl, inr, Bool, true, false, ◌&&◌, Option, none, some,
  List, [], ◌∷◌, ◌++◌, leb, ltb, if◌then◌else◌, Bool-cases, Option-cases, option_cases, sym, ◌∙◌,
}
use rdc_tools.Uses.{UseInfo, UseTally, is_writer_how, find}

-- `write['how'] in WRITER_HOWS` and `two['first'] <= write['eid'] <= two['last']`
abbrev pub in_window : UseTally → UseInfo → Bool
in_window two w = is_writer_how w.how && (leb two.first w.eid && leb w.eid two.last)

unfoldable pub first_conflict : UseTally → List UseInfo → Option (UseInfo × UseInfo)
first_conflict two [] = none
first_conflict two (w ∷ ws) =
    let later = first_conflict two ws in
    if in_window two w
    then (elim (find (λ r. leb w.eid r.eid) two.read_uses) [ none ↦ later | some r ↦ some (w, r) ])
    else later

unfoldable pub write_while_read : UseTally → UseTally → Option (UseInfo × UseInfo)
write_while_read one two = first_conflict two one.write_uses

pub record Conflict : Type 0 where
  pub writer : ℕ
  pub reader : ℕ
  pub write_use : UseInfo
  pub read_use : UseInfo
  pub declared : ℕ

-- `next((eid for eid in barriers if write['eid'] < eid <= read['eid']), 0)`
unfoldable pub declared_between : UseInfo → UseInfo → List ℕ → ℕ
declared_between w r barriers = elim (find (λ eid. ltb w.eid eid && leb eid r.eid) barriers) [
  | none ↦ 0
  | some eid ↦ eid
]

unfoldable pub direction : ℕ → ℕ → UseTally → UseTally → List ℕ → List Conflict
direction writer reader one two barriers = elim (write_while_read one two) [
  | none ↦ []
  | some (w, r) ↦
      record {
        writer = writer;
        reader = reader;
        write_use = w;
        read_use = r;
        declared = declared_between w r barriers;
      }
      ∷ []
]

unfoldable pub pair_conflicts : ℕ → ℕ → UseTally → UseTally → List ℕ → List Conflict
pair_conflicts a b tally_a tally_b barriers =
    direction a b tally_a tally_b barriers ++ direction b a tally_b tally_a barriers

module _ {ℓ} {A : Type ℓ} (p : A → Bool) where
  find-none : (xs : List A) → (find p xs ≡ none) ↔ All (λ x. p x ≡ false) xs
  unfolding find
  find-none [] = (λ e. tt, λ e. refl)
  find-none (x ∷ xs) = elim (Bool-cases (p x)) [
    | inl e ↦ (λ h. ground (arith, h, e), λ (a, b). ground (arith, a, e))
    | inr e ↦ (
      λ h. (e, (find-none xs).0 (ground (arith, h, e))),
      λ (a, b). ground (arith, e, (find-none xs).1 b),
    )
  ]

  find-some : (xs : List A) {x : A} → find p xs ≡ some x → p x ≡ true
  unfolding find
  find-some [] h = cc
  find-some (y ∷ xs) {x} h = elim (Bool-cases (p y)) [
    | inl e ↦ ground (arith, h, e)
    | inr e ↦ find-some xs {x = x} (ground (arith, h, e))
  ]

abbrev reads_after : UseTally → UseInfo → Option UseInfo
reads_after two w = find (λ r. leb w.eid r.eid) two.read_uses

module _ (two : UseTally) (w : UseInfo) (ws : List UseInfo) where
  conflict_outside : in_window two w ≡ false → first_conflict two (w ∷ ws) ≡ first_conflict two ws
  unfolding first_conflict
  conflict_outside e = rw (first_conflict, e)

  conflict_before :
      in_window two w ≡ true
      → reads_after two w ≡ none
      → first_conflict two (w ∷ ws) ≡ first_conflict two ws
  unfolding first_conflict
  conflict_before e f = rw (first_conflict, e, f)

  conflict_found :
      (r : UseInfo)
      → in_window two w ≡ true
      → reads_after two w ≡ some r
      → first_conflict two (w ∷ ws) ≡ some (w, r)
  unfolding first_conflict
  conflict_found r e f = rw (first_conflict, e, f)

first_conflict-none :
    (two : UseTally) (ws : List UseInfo)
    → (first_conflict two ws ≡ none)
      ↔ All (λ w. in_window two w ≡ true → All (λ r. leb w.eid r.eid ≡ false) two.read_uses) ws
first_conflict-none two [] = (λ e. tt, λ e. unfold first_conflict in refl)
first_conflict-none two (w ∷ ws) =
    let (there, back) = first_conflict-none two ws in
    let no_reads = find-none (λ r. leb w.eid r.eid) two.read_uses in
    elim (Bool-cases (in_window two w)) [
      | inl e ↦ elim (Option-cases (reads_after two w)) [
        | inl f ↦ (
          λ h. (λ _. no_reads.0 f, there (sym (conflict_before two w ws e f) ∙ h)),
          λ (a, b). conflict_before two w ws e f ∙ back b,
        )
        | inr (r, f) ↦
            (λ h. cc (h, conflict_found two w ws r e f), λ (a, b). cc (f, no_reads.1 (a e)))
      ]
      | inr e ↦ (
        λ h. (λ t. cc, there (sym (conflict_outside two w ws e) ∙ h)),
        λ (a, b). conflict_outside two w ws e ∙ back b,
      )
    ]

first_conflict-some :
    (two : UseTally) (ws : List UseInfo) (w r : UseInfo)
    → first_conflict two ws ≡ some (w, r)
    → (in_window two w ≡ true) × (leb w.eid r.eid ≡ true)
first_conflict-some two [] w r h = unfold first_conflict in cc
first_conflict-some two (v ∷ ws) w r h = elim (Bool-cases (in_window two v)) [
  | inl e ↦ elim (Option-cases (reads_after two v)) [
    | inl f ↦ first_conflict-some two ws w r (sym (conflict_before two v ws e f) ∙ h)
    | inr (q, f) ↦
        let found = find-some (λ r. leb v.eid r.eid) two.read_uses {x = q} f in
        ground (arith, h, conflict_found two v ws q e f, found, e)
  ]
  | inr e ↦ first_conflict-some two ws w r (sym (conflict_outside two v ws e) ∙ h)
]

-- No conflict is found exactly where each write of the one, by a call, a clear, a copy or a resolve,
-- either lies outside the other's first and last use, or comes after each of its reads.
write_while_read-none :
    (one two : UseTally)
    → (write_while_read one two ≡ none)
      ↔ All
          (λ w. in_window two w ≡ true → All (λ r. leb w.eid r.eid ≡ false) two.read_uses)
          one.write_uses
unfolding write_while_read
write_while_read-none one two = first_conflict-none two one.write_uses

-- The barrier that is named, where there is one, lies after the write and not after the read.
declared_between_inside :
    (w r : UseInfo) (barriers : List ℕ)
    → 0 < declared_between w r barriers
    → (w.eid < declared_between w r barriers) × (declared_between w r barriers ≤ r.eid)
unfolding declared_between
declared_between_inside w r barriers h =
    elim (Option-cases (find (λ eid. ltb w.eid eid && leb eid r.eid) barriers)) [
      | inl e ↦ ground arith
      | inr (b, e) ↦
          ground (arith, e, find-some (λ eid. ltb w.eid eid && leb eid r.eid) barriers {x = b} e)
    ]

abbrev pub IsConflict : ℕ → ℕ → UseTally → Conflict → Type 0
IsConflict writer reader two c =
    (c.writer ≡ writer)
    × (c.reader ≡ reader)
    × (is_writer_how c.write_use.how ≡ true)
    × (two.first ≤ c.write_use.eid)
    × (c.write_use.eid ≤ two.last)
    × (c.write_use.eid ≤ c.read_use.eid)
    × (0 < c.declared → (c.write_use.eid < c.declared) × (c.declared ≤ c.read_use.eid))

-- A conflict that is reported is one: the write is by a call, a clear, a copy or a resolve and lies
-- between the other's first and last use, the read is at its event or later, and the barrier that is
-- said to declare the handover, where there is one, lies after the write and not after the read.
direction_sound :
    (writer reader : ℕ) (one two : UseTally) (barriers : List ℕ)
    → All (IsConflict writer reader two) (direction writer reader one two barriers)
unfolding direction write_while_read
direction_sound writer reader one two barriers =
    option_cases (All (IsConflict writer reader two)) (first_conflict two one.write_uses) _ _
      (λ e. tt)
      λ p e.
        let (a, b) = first_conflict-some two one.write_uses p.0 p.1 e in
        (
          (
            refl,
            refl,
            ground arith,
            ground arith,
            ground arith,
            ground arith,
            declared_between_inside p.0 p.1 barriers,
          ),
          tt,
        )
