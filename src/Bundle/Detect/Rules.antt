-- ===== src/Bundle/Detect/Rules.antt =====
-- Each usage detector against the rows of the resource that it judges.
use rdc_tools.Prelude.{
  ℕ, ◌≤◌, ◌<◌, ◌≡◌, ◌↔◌, refl, arith, inl, inr, true, false, ◌&&◌, Option, some, List, [], ◌∷◌, All,
  bytes_eq, leb, ltb, ◌==◌, Bool-cases, Option-cases, ◌∙◌, sym, codes,
}
use rdc_tools.Uses.{any, find}
use rdc_tools.Bundle.Rows.{Text, BundleResource}
use rdc_tools.Bundle.Usage.{
  UsageChains, usage_reads, usage_writes, usage_targets, text_in, usage_chain, meets, can_judge,
  untracked, chain_of,
}
use rdc_tools.Bundle.Usage.Chain.{is_of, any-usage_chain}
use rdc_tools.Bundle.Detect.{
  first_read, flag_read_before_write, last_write, last_eid, writes_at, flag_write_never_read,
  first_target, flag_load_instead_of_clear, dead_in, dead_binding, reads_at,
}
use rdc_tools.Bundle.Detect.Steps.{
  read_of, target_of, write_of, has, targets_at, last_write_fails, no_hit, read_none, read_some,
  target_none, target_some, last_none, last_some, last_zero, write_step, or_false, and_true,
  negated, dead_step,
}
use rdc_tools.Bundle.Detect.Found.{
  IsFirst, IsLast, not_before, not_behind, none_behind, not_until, none_until, none_before, at_most,
  judge_tracked, judge_untracked, no_rows, found-IsFirst, found_of,
}

module _ (resource : BundleResource) (chains : Option UsageChains)
    (judged : can_judge resource ≡ true)
    (own : chain_of resource chains ≡ usage_chain resource) where
  read_judged :
      read_of (flag_read_before_write chains resource)
      ≡ read_of (first_read resource (usage_chain resource))
  unfolding flag_read_before_write bytes_eq
  read_judged = elim (Bool-cases (untracked (usage_chain resource))) [
    | inl e ↦
        let none_read : any reads_at (usage_chain resource) ≡ false =
          any-usage_chain (λ _. true) usage_reads resource
          ∙ no_rows resource chains judged own e usage_reads refl (λ _. true) in
        rw (flag_read_before_write, judge_untracked resource chains judged own e)
          (sym (read_none resource _ (no_hit reads_at _ none_read)))
    | inr e ↦ rw (flag_read_before_write, judge_tracked resource chains judged own e) refl
  ]

  -- A texture or a buffer, whose chain is its own, is reported as read before it is written, with the
  -- event `eid`, exactly where `eid` is the first event of the rows that read it and every row that
  -- writes it has a later one (a write at the very event clears the read).
  pub flag_read_before_write_iff :
      (eid : ℕ)
      → (read_of (flag_read_before_write chains resource) ≡ some eid) ↔ (
          IsFirst usage_reads eid resource.usage
          × All (λ u. is_of usage_writes u ≡ true → eid < u.eid) resource.usage)
  flag_read_before_write_iff eid = (
    λ h. elim (Option-cases (find reads_at (usage_chain resource))) [
      | inl e ↦ cc (h, read_judged, read_none resource (usage_chain resource) e)
      | inr ((other, names), e) ↦
          let step = read_judged ∙ read_some resource (usage_chain resource) other names e in
          elim (Bool-cases
            (any (λ (e, ns). leb e other && meets usage_writes ns) (usage_chain resource))) [
              | inl t ↦ ground (arith, h, step, t)
              | inr t ↦
                  let same : other ≡ eid = ground (arith, h, step, t) in
                  (
                    found-IsFirst resource usage_reads eid names (rw same at e),
                    not_until usage_writes resource.usage eid (
                        sym (any-usage_chain (λ e. leb e eid) usage_writes resource)
                        ∙ rw same at t),
                  )
            ]
    ],
    λ (first, later).
        let (names, e) = found_of resource usage_reads eid first in
        let none_written =
          any-usage_chain (λ e. leb e eid) usage_writes resource
          ∙ none_until usage_writes resource.usage eid later in
        read_judged ∙ read_some resource (usage_chain resource) eid names e ∙ rw none_written refl,
  )

  none_of :
      untracked (usage_chain resource) ≡ true
      → (kinds : List Text) → text_in (codes "Unused") kinds ≡ false
      → any (λ (e, ns). meets kinds ns) (usage_chain resource) ≡ false
  none_of e kinds h =
      any-usage_chain (λ _. true) kinds resource
      ∙ no_rows resource chains judged own e kinds h (λ _. true)

  target_judged :
      target_of (flag_load_instead_of_clear chains resource)
      ≡ target_of (first_target resource (usage_chain resource))
  unfolding flag_load_instead_of_clear bytes_eq
  target_judged = elim (Bool-cases (untracked (usage_chain resource))) [
    | inl e ↦
        rw (flag_load_instead_of_clear, judge_untracked resource chains judged own e)
          (sym (target_none resource _ (no_hit targets_at _ (none_of e usage_targets refl))))
    | inr e ↦ rw (flag_load_instead_of_clear, judge_tracked resource chains judged own e) refl
  ]

  write_judged :
      write_of (flag_write_never_read chains resource)
      ≡ write_of (last_write resource (usage_chain resource))
  unfolding flag_write_never_read bytes_eq
  write_judged = elim (Bool-cases (untracked (usage_chain resource))) [
    | inl e ↦
        rw (flag_write_never_read, judge_untracked resource chains judged own e)
          (sym (write_step resource _ 0 (last_zero writes_at _ (none_of e usage_writes refl))))
    | inr e ↦ rw (flag_write_never_read, judge_tracked resource chains judged own e) refl
  ]

  -- A texture or a buffer, whose chain is its own, is reported as a target that nothing clears, with the
  -- event `eid`, exactly where `eid` is the first event of the rows that bind it as a target, and no row
  -- that writes it has an earlier one.
  pub flag_load_instead_of_clear_iff :
      (eid : ℕ)
      → (target_of (flag_load_instead_of_clear chains resource) ≡ some eid) ↔ (
          IsFirst usage_targets eid resource.usage
          × All (λ u. is_of usage_writes u ≡ true → eid ≤ u.eid) resource.usage)
  flag_load_instead_of_clear_iff eid = (
    λ h. elim (Option-cases (find targets_at (usage_chain resource))) [
      | inl e ↦ cc (h, target_judged, target_none resource (usage_chain resource) e)
      | inr ((other, names), e) ↦
          let step = target_judged ∙ target_some resource (usage_chain resource) other names e in
          elim (Bool-cases
            (any (λ (e, ns). ltb e other && meets usage_writes ns) (usage_chain resource))) [
              | inl t ↦ ground (arith, h, step, t)
              | inr t ↦
                  let same : other ≡ eid = ground (arith, h, step, t) in
                  (
                    found-IsFirst resource usage_targets eid names (rw same at e),
                    not_before usage_writes resource.usage eid (
                        sym (any-usage_chain (λ e. ltb e eid) usage_writes resource)
                        ∙ rw same at t),
                  )
            ]
    ],
    λ (first, later).
        let (names, e) = found_of resource usage_targets eid first in
        let none_written =
          any-usage_chain (λ e. ltb e eid) usage_writes resource
          ∙ none_before usage_writes resource.usage eid later in
        target_judged
        ∙ target_some resource (usage_chain resource) eid names e
        ∙ rw none_written refl,
  )

  last_of :
      {eid : ℕ}
      → IsLast usage_writes eid resource.usage
      → last_eid writes_at (usage_chain resource) ≡ eid
  last_of {eid} (at, last) =
      let m = last_eid writes_at (usage_chain resource) in
      let behind = not_behind usage_writes resource.usage m (
        sym (any-usage_chain (λ e. ltb m e) usage_writes resource)
        ∙ last_none writes_at m (usage_chain resource) (omega arith)) in
      let le = at_most usage_writes eid m resource.usage at behind in
      elim (Bool-cases (m == 0)) [
        | inl e ↦ ground (arith, le, e)
        | inr e ↦
            let at_m =
              sym (any-usage_chain (λ e. e == m) usage_writes resource)
              ∙ last_some writes_at m (usage_chain resource) refl (ground (arith, e)) in
            omega (arith, le, at_most usage_writes m eid resource.usage at_m last)
      ]

  -- A texture or a buffer, whose chain is its own, is reported as written and never read, with the event
  -- `eid`, exactly where `eid` is not 0 and the last event of the rows that write it, and no row that
  -- reads it has a later one.
  pub flag_write_never_read_iff :
      (eid : ℕ)
      → (write_of (flag_write_never_read chains resource) ≡ some eid) ↔ (
          (0 < eid)
          × IsLast usage_writes eid resource.usage
          × All (λ u. is_of usage_reads u ≡ true → u.eid ≤ eid) resource.usage)
  flag_write_never_read_iff eid = (
    λ h.
        let step = write_judged ∙ write_step resource (usage_chain resource) _ refl in
        elim (Bool-cases (last_write_fails (usage_chain resource))) [
          | inl t ↦ ground (arith, h, step, t)
          | inr t ↦
              let same : last_eid writes_at (usage_chain resource) ≡ eid =
                ground (arith, h, step, t) in
              let (zero_no, read_no) =
                or_false (eid == 0)
                  (any (λ (e, ns). ltb eid e && meets usage_reads ns) (usage_chain resource))
                  (rw same at t) in
              let positive : 0 < eid = ground (arith, zero_no) in
              (
                positive,
                (
                  sym (any-usage_chain (λ e. e == eid) usage_writes resource)
                      ∙ last_some writes_at eid (usage_chain resource) same positive,
                  not_behind usage_writes resource.usage eid (
                      sym (any-usage_chain (λ e. ltb eid e) usage_writes resource)
                      ∙ last_none writes_at eid (usage_chain resource) (omega (arith, same))),
                ),
                not_behind usage_reads resource.usage eid
                    (sym (any-usage_chain (λ e. ltb eid e) usage_reads resource) ∙ read_no),
              )
        ],
    λ (positive, last, unread).
        let step = write_judged ∙ write_step resource (usage_chain resource) eid (last_of last) in
        let none_read =
          any-usage_chain (λ e. ltb eid e) usage_reads resource
          ∙ none_behind usage_reads resource.usage eid unread in
        step ∙ rw none_read (ground (arith, positive)),
  )

  dead_judged :
      (first last : ℕ)
      → has (dead_binding chains first last resource)
        ≡ has (dead_in first last resource (usage_chain resource))
  unfolding dead_binding bytes_eq
  dead_judged first last = elim (Bool-cases (untracked (usage_chain resource))) [
    | inl e ↦
        let none_bound =
          any-usage_chain (λ e. leb first e && leb e last) (codes "CS_RWResource" ∷ []) resource
          ∙ no_rows resource chains judged own e (codes "CS_RWResource" ∷ []) refl
              (λ e. leb first e && leb e last) in
        rw (dead_binding, judge_untracked resource chains judged own e)
          (sym (dead_step first last resource (usage_chain resource) ∙ rw none_bound refl))
    | inr e ↦ rw (dead_binding, judge_tracked resource chains judged own e) refl
  ]

  -- A compute pass with the events from `first` to `last` has a texture or a buffer, whose chain is its
  -- own, among those that nothing reads exactly where a row in it binds it as a UAV of a dispatch, and
  -- no row reads it at an event behind the pass.
  pub dead_binding_iff :
      (first last : ℕ)
      → (has (dead_binding chains first last resource) ≡ true) ↔ (
          (any
              (λ u. (leb first u.eid && leb u.eid last) && is_of (codes "CS_RWResource" ∷ []) u)
              resource.usage
            ≡ true)
          × All (λ u. is_of usage_reads u ≡ true → u.eid ≤ last) resource.usage)
  dead_binding_iff first last =
      let bound =
        any-usage_chain (λ e. leb first e && leb e last) (codes "CS_RWResource" ∷ []) resource in
      let after = any-usage_chain (λ e. ltb last e) usage_reads resource in
      let step = dead_judged first last ∙ dead_step first last resource (usage_chain resource) in
      (
        λ h.
            let (a, b) = and_true _ _ (sym step ∙ h) in
            (sym bound ∙ a, not_behind usage_reads resource.usage last (sym after ∙ negated _ b)),
        λ (a, b). step ∙ rw (bound ∙ a, after ∙ none_behind usage_reads resource.usage last b) refl,
      )
