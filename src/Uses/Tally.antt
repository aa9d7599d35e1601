-- ===== src/Uses/Tally.antt =====
-- What the two findings of `deps` say of a resource's use list.
use rdc_tools.Prelude.{
  All, ℕ, ◌≤◌, ◌<◌, ◌≡◌, ◌↔◌, refl, arith, inl, inr, Bool, true, false, Option, none, some, List,
  [], ◌∷◌, leb, ltb, ◌||◌, gt→leb, gt→ltb, ◌&&◌, sym, if◌then◌else◌, Bool-cases, Option-cases, ap,
  ◌∙◌,
}
use rdc_tools.Uses.{
  UseInfo, ResourceUse, UseTally, reads, writes, is_discard, keep, any, find, first?, last?,
  eid_or_zero, tally, read_before_write, write_never_read,
}

or_false : (a b : Bool) → (a || b) ≡ false → (a ≡ false) × (b ≡ false)
or_false a b h = ground arith

module _ {ℓ} {A : Type ℓ} (p : A → Bool) where
  first-keep : (xs : List A) → first? (keep p xs) ≡ find p xs
  unfolding keep find
  first-keep [] = refl
  first-keep (x ∷ xs) = elim (Bool-cases (p x)) [ inl e ↦ rw e | inr e ↦ rw e (first-keep xs) ]

  -- No kept item passes the test `q`, exactly where every item that is kept has `R`.
  module _ {μ} (q : A → Bool) (R : A → Type μ) (sound : (x : A) → q x ≡ false → R x)
      (complete : (x : A) → R x → q x ≡ false) where
    any-keep→All : (xs : List A) → any q (keep p xs) ≡ false → All (λ x. p x ≡ true → R x) xs
    unfolding keep any
    any-keep→All [] h = tt
    any-keep→All (x ∷ xs) h = elim (Bool-cases (p x)) [
      | inl e ↦ let (a, b) = or_false (q x) _ (rw e at h) in (λ _. sound x a, any-keep→All xs b)
      | inr e ↦ (λ t. cc, any-keep→All xs (rw e at h))
    ]

    All→any-keep : (xs : List A) → All (λ x. p x ≡ true → R x) xs → any q (keep p xs) ≡ false
    unfolding keep any
    All→any-keep [] h = refl
    All→any-keep (x ∷ xs) (a, b) = elim (Bool-cases (p x)) [
      | inl e ↦ rw (e, complete x (a e)) (All→any-keep xs b)
      | inr e ↦ rw e (All→any-keep xs b)
    ]

module _ {ℓ} {A : Type ℓ} where
  -- The last item that passes the test.
  abbrev pub find_last : (A → Bool) → List A → Option A
  find_last p [] = none
  find_last p (x ∷ xs) = elim (find_last p xs) [
    | none ↦ (if p x then some x else none)
    | some y ↦ some y
  ]

  last-cons :
      (x : A) (xs : List A) → last? (x ∷ xs) ≡ elim (last? xs) [ none ↦ some x | some y ↦ some y ]
  last-cons x [] = refl
  last-cons x (y ∷ ys) = refl

  last-keep : (p : A → Bool) (xs : List A) → last? (keep p xs) ≡ find_last p xs
  unfolding keep
  last-keep p [] = refl
  last-keep p (x ∷ xs) = elim (Bool-cases (p x)) [
    | inl e ↦ ground (arith, e, last-keep p xs, last-cons x (keep p xs))
    | inr e ↦ ground (arith, e, last-keep p xs)
  ]

  keep-keep : (p q : A → Bool) (xs : List A) → keep q (keep p xs) ≡ keep (λ x. p x && q x) xs
  unfolding keep
  keep-keep p q [] = refl
  keep-keep p q (x ∷ xs) = ground (arith, keep-keep p q xs)

not_leb : (a b : ℕ) → leb a b ≡ false → b < a
not_leb a b h = ground arith

not_ltb : (a b : ℕ) → ltb a b ≡ false → b ≤ a
not_ltb a b h = ground arith

-- The finding, once the first read is known.
read_before_write_step :
    (c : UseTally) {r : UseInfo}
    → first? c.read_uses ≡ some r
    → read_before_write c ≡ (
        if any (λ w. leb w.eid r.eid) c.write_uses
        then none
        else some (r, eid_or_zero (first? c.write_uses)))
unfolding read_before_write
read_before_write_step c e = rw (read_before_write, e)

read_before_write_unread : (c : UseTally) → first? c.read_uses ≡ none → read_before_write c ≡ none
unfolding read_before_write
read_before_write_unread c e = rw (read_before_write, e)

write_never_read_step :
    (c : UseTally) {w : UseInfo}
    → last? c.write_uses ≡ some w
    → write_never_read c ≡ (
        if any (λ r. ltb w.eid r.eid) c.read_uses
        then none
        else some (w, keep (λ d. ltb w.eid d.eid) c.discard_uses))
unfolding write_never_read
write_never_read_step c e = rw (write_never_read, e)

write_never_read_unwritten : (c : UseTally) → last? c.write_uses ≡ none → write_never_read c ≡ none
unfolding write_never_read
write_never_read_unwritten c e = rw (write_never_read, e)

abbrev writing : UseInfo → Bool
writing u = writes u.access

abbrev reading : UseInfo → Bool
reading u = reads u.access

module _ (rid : ℕ) (rec : ResourceUse) where
  -- `read-before-write` is found with a first read `r` and the event `w` exactly where `r` is the
  -- first use that reads, every use that writes has a later event than `r` (a write at the very event
  -- of the read clears it), and `w` is the first write's event, or 0 where nothing writes.
  pub read_before_write_iff :
      (r : UseInfo) (w : ℕ)
      → (read_before_write (tally rid rec) ≡ some (r, w)) ↔ (
          (find (λ u. reads u.access) rec.uses ≡ some r)
          × All (λ u. writes u.access ≡ true → r.eid < u.eid) rec.uses
          × (eid_or_zero (find (λ u. writes u.access) rec.uses) ≡ w))
  unfolding tally
  read_before_write_iff r w = (
    λ h. elim (Option-cases (find reading rec.uses)) [
      | inl e ↦ cc (h, read_before_write_unread (tally rid rec) (first-keep reading rec.uses ∙ e))
      | inr (r', e) ↦
          let step = read_before_write_step (tally rid rec) (first-keep reading rec.uses ∙ e) in
          elim (Bool-cases (any (λ v. leb v.eid r'.eid) (keep writing rec.uses))) [
            | inl t ↦ ground (arith, h, step, t)
            | inr t ↦
                let same : r' ≡ r = ground (arith, h, step, t) in
                (
                  e ∙ ap some same,
                  rw same at (
                      any-keep→All writing (λ v. leb v.eid r'.eid) (λ v. r'.eid < v.eid)
                        (λ v. not_leb v.eid r'.eid) (λ v. gt→leb v.eid r'.eid) rec.uses t),
                  ground (arith, h, step, t, first-keep writing rec.uses),
                )
          ]
    ],
    λ (a, b, c).
        let none_early : any (λ v. leb v.eid r.eid) (keep writing rec.uses) ≡ false =
          All→any-keep writing (λ v. leb v.eid r.eid) (λ v. r.eid < v.eid)
            (λ v. not_leb v.eid r.eid) (λ v. gt→leb v.eid r.eid) rec.uses b in
        read_before_write_step (tally rid rec) (first-keep reading rec.uses ∙ a)
        ∙ rw (none_early, first-keep writing rec.uses, c),
  )

  -- `write-never-read` is found with a last write `w` and discards `ds` exactly where `w` is the last
  -- use that writes, no use that reads has a later event than `w` (a read at the very event of the
  -- write is no reader of it), and `ds` are the discards at later events, in order.
  pub write_never_read_iff :
      (w : UseInfo) (ds : List UseInfo)
      → (write_never_read (tally rid rec) ≡ some (w, ds)) ↔ (
          (find_last (λ u. writes u.access) rec.uses ≡ some w)
          × All (λ u. reads u.access ≡ true → u.eid ≤ w.eid) rec.uses
          × (keep (λ u. is_discard u.access && ltb w.eid u.eid) rec.uses ≡ ds))
  unfolding tally
  write_never_read_iff w ds = (
    λ h. elim (Option-cases (find_last writing rec.uses)) [
      | inl e ↦ cc (h, write_never_read_unwritten (tally rid rec) (last-keep writing rec.uses ∙ e))
      | inr (w', e) ↦
          let step = write_never_read_step (tally rid rec) (last-keep writing rec.uses ∙ e) in
          elim (Bool-cases (any (λ v. ltb w'.eid v.eid) (keep reading rec.uses))) [
            | inl t ↦ ground (arith, h, step, t)
            | inr t ↦
                let same : w' ≡ w = ground (arith, h, step, t) in
                (
                  e ∙ ap some same,
                  rw same at (
                      any-keep→All reading (λ v. ltb w'.eid v.eid) (λ v. v.eid ≤ w'.eid)
                        (λ v. not_ltb w'.eid v.eid) (λ v. gt→ltb w'.eid v.eid) rec.uses t),
                  sym (keep-keep (λ u. is_discard u.access) (λ d. ltb w.eid d.eid) rec.uses)
                      ∙ ground (arith, h, step, t, same),
                )
          ]
    ],
    λ (a, b, c).
        let none_later : any (λ v. ltb w.eid v.eid) (keep reading rec.uses) ≡ false =
          All→any-keep reading (λ v. ltb w.eid v.eid) (λ v. v.eid ≤ w.eid)
            (λ v. not_ltb w.eid v.eid) (λ v. gt→ltb w.eid v.eid) rec.uses b in
        write_never_read_step (tally rid rec) (last-keep writing rec.uses ∙ a)
        ∙ rw (none_later, keep-keep (λ u. is_discard u.access) (λ d. ltb w.eid d.eid) rec.uses, c),
  )
