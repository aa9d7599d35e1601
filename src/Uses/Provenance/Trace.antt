-- ===== src/Uses/Provenance/Trace.antt =====
-- What `walk_provenance` returns.
use rdc_tools.Prelude.{ℕ, ◌<◌, ◌≡◌, Option, none, some, List, [], ◌∷◌, ◌++◌, ◌==◌, if◌then◌else◌}
use rdc_tools.Uses.{UseInfo, ResourceUse, How, discard, clear, copy_dst, resolve_dst}
use rdc_tools.Uses.Provenance.{
  ProvenanceStep, Provenance, EndKind, no_writer, created_here, discarded, cleared, lost, called,
  Walked, traced, absent, key_error, out_of_fuel, Resources, previous_writer, copy_source,
}

abbrev pub lost_at : EndKind → ℕ → Option UseInfo → List ProvenanceStep
lost_at lost here (some w) = record { rid = here; use_info = w; source = 0 } ∷ []
lost_at _ here used = []

module _ (resources : Resources) where
  -- One hop that the ledger bears out: the step's write is the nearest earlier writer of its resource.
  abbrev pub IsHop : ℕ → ℕ → UseInfo → Type 0
  IsHop rid before w =
      (rec : ResourceUse) × (resources rid ≡ some rec) × (previous_writer rec.uses before ≡ some w)

  -- Hops from a resource and an event down to another: each write is strictly earlier than the one
  -- before it, and the next hop is at the resource that the step names as its source.
  abbrev pub Chain : ℕ → ℕ → List ProvenanceStep → ℕ → ℕ → Type 0
  Chain rid before [] rid' before' = (rid ≡ rid') × (before ≡ before')
  Chain rid before (s ∷ ss) rid' before' =
      (s.rid ≡ rid)
      × (s.use_info.eid < before)
      × IsHop rid before s.use_info
      × (s.source ≡ copy_source s.use_info)
      × Chain s.source s.use_info.eid ss rid' before'

  -- The kind of end that the last resource's record bears out.
  abbrev pub end_of_how : How → EndKind
  end_of_how discard = discarded
  end_of_how clear = cleared
  end_of_how copy_dst = lost
  end_of_how resolve_dst = lost
  end_of_how _ = called

  abbrev pub end_kind : ResourceUse → Option UseInfo → EndKind
  end_kind rec none = if rec.created == 0 then no_writer else created_here
  end_kind rec (some w) = end_of_how w.how

  -- Where the walk stops: at the nearest earlier writer of the last resource, or where it has none.
  pub record IsEnd (p : Provenance) (low : ℕ) : Type 0 where
    pub rec : ResourceUse
    pub held : resources p.end_rid ≡ some rec
    pub used : previous_writer rec.uses low ≡ p.end_use
    pub kind : p.ending ≡ end_kind rec p.end_use

  -- The step that the walk records where a copy names no resource of the ledger.
  abbrev pub lost_step : Provenance → List ProvenanceStep
  lost_step p = lost_at p.ending p.end_rid p.end_use

  -- A trace from the use of `rid` at event `before`: hops down to where it stops.
  abbrev pub IsTrace : ℕ → ℕ → Walked → Type 0
  IsTrace rid before (traced p) =
      (ss : List ProvenanceStep) × (low : ℕ) × (p.steps ≡ ss ++ lost_step p)
      × Chain rid before ss p.end_rid low
      × IsEnd p low
  IsTrace rid before absent = ⊥
  IsTrace rid before key_error = ⊥
  IsTrace rid before out_of_fuel = ⊥
