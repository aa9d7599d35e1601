-- ===== src/Uses/Record/Draw.antt =====
-- What one draw adds to the use list of each resource.
use Prim.Native.String.{String}
use rdc_tools.Prelude.{
  ℕ, ◌≡◌, Bool, true, false, Option, none, some, List, [], ◌∷◌, ◌++◌, codes, decimal, if◌then◌else◌,
}
use rdc_tools.Uses.{read, write, How, vb, ib}
use rdc_tools.Uses.Ledger.{Extent}
use rdc_tools.Uses.Record.{
  UseLedger, Roots, DrawState, DescriptorInfo, Heaps, access_by_kind, kind_name, sorted_roots,
  sorted_views, slot_text, table_text, record_use, root_uses, slot_resource, slot_use, table_use,
  table_uses, buffer_uses, target_uses, index_use, bind_uses,
}
use rdc_tools.Uses.Record.Recorded.{
  uses_of, Claim, uses_in, Adds, skip-Adds, record_use-Adds, append-Adds, cons-Adds,
}

-- The claims of a draw, in the order of the walk.
abbrev pub root_claims : How → Roots → List Claim
root_claims how [] = []
root_claims how ((rp, res, off) ∷ roots) =
    record { resource = res; access = access_by_kind how; how = how; detail = slot_text rp }
    ∷ root_claims how roots

abbrev pub slot_claim : List (ℕ × Extent) → ℕ → DescriptorInfo → Option How → List Claim
slot_claim extents rp info none = []
slot_claim extents rp info (some how) =
    record {
      resource = slot_resource extents info how;
      access = access_by_kind how;
      how = how;
      detail = table_text rp how;
    }
    ∷ []

abbrev pub table_claim : List (ℕ × Extent) → ℕ → Option DescriptorInfo → List Claim
table_claim extents rp none = []
table_claim extents rp (some info) = slot_claim extents rp info (kind_name info.kind)

abbrev pub table_claims : Heaps → List (ℕ × Extent) → Roots → List Claim
table_claims heaps extents [] = []
table_claims heaps extents ((rp, heap, index) ∷ tables) =
    table_claim extents rp (heaps heap index) ++ table_claims heaps extents tables

abbrev pub buffer_claims : List (ℕ × ℕ) → List Claim
buffer_claims [] = []
buffer_claims ((slot, res) ∷ vbs) =
    record { resource = res; access = some read; how = vb; detail = codes "slot " ++ decimal slot }
    ∷ buffer_claims vbs

abbrev pub target_claims : List ℕ → List Claim
target_claims [] = []
target_claims (res ∷ targets) =
    record { resource = res; access = some write; how = How.rtv; detail = [] }
    ∷ target_claims targets

abbrev pub index_claims : Option ℕ → List Claim
index_claims none = []
index_claims (some res) = record { resource = res; access = some read; how = ib; detail = [] } ∷ []

abbrev pub resource_claims : DrawState → Bool → Heaps → List (ℕ × Extent) → List Claim
resource_claims state compute heaps extents =
    root_claims How.cbv (sorted_roots (if compute then state.comp_cbv else state.gfx_cbv))
    ++ (root_claims How.srv (sorted_roots (if compute then state.comp_srv else state.gfx_srv))
        ++ (root_claims How.uav (sorted_roots (if compute then state.comp_uav else state.gfx_uav))
            ++ table_claims heaps extents
                (sorted_roots (if compute then state.comp_table else state.gfx_table))))

-- A draw has its vertex and index buffers and its targets behind them, a dispatch has none.
abbrev pub draw_claims : DrawState → Bool → Heaps → List (ℕ × Extent) → List Claim
draw_claims state true heaps extents = resource_claims state true heaps extents
draw_claims state false heaps extents =
    resource_claims state false heaps extents
    ++ (buffer_claims (sorted_views state.vbs)
        ++ (index_claims state.index_buffer
            ++ (target_claims state.rtv
                ++ (record { resource = state.dsv; access = some write; how = How.dsv; detail = [] }
                    ∷ []))))

module _ (eid : ℕ) (call : String) (rid : ℕ) where
  root_uses-Adds :
      (how : How) (roots : Roots)
      → Adds eid call rid (root_claims how roots) (root_uses eid call how roots)
  unfolding root_uses
  root_uses-Adds how [] = skip-Adds eid call rid
  root_uses-Adds how ((rp, res, off) ∷ roots) =
      cons-Adds eid call rid res (access_by_kind how) how (slot_text rp) (root_claims how roots)
        (root_uses eid call how roots) (root_uses-Adds how roots)

  slot_use-Adds :
      (extents : List (ℕ × Extent)) (rp : ℕ) (info : DescriptorInfo) (how : Option How)
      → Adds eid call rid (slot_claim extents rp info how) (slot_use eid call extents rp info how)
  slot_use-Adds extents rp info none = skip-Adds eid call rid
  slot_use-Adds extents rp info (some how) =
      record_use-Adds eid call rid (slot_resource extents info how) (access_by_kind how) how
        (table_text rp how)

  table_use-Adds :
      (extents : List (ℕ × Extent)) (rp : ℕ) (info : Option DescriptorInfo)
      → Adds eid call rid (table_claim extents rp info) (table_use eid call extents rp info)
  table_use-Adds extents rp none = skip-Adds eid call rid
  table_use-Adds extents rp (some info) = slot_use-Adds extents rp info (kind_name info.kind)

  table_uses-Adds :
      (heaps : Heaps) (extents : List (ℕ × Extent)) (tables : Roots)
      → Adds eid call rid
          (table_claims heaps extents tables)
          (table_uses eid call heaps extents tables)
  unfolding table_uses
  table_uses-Adds heaps extents [] = skip-Adds eid call rid
  table_uses-Adds heaps extents ((rp, heap, index) ∷ tables) =
      append-Adds eid call rid (table_claim extents rp (heaps heap index))
        (table_claims heaps extents tables) (table_use eid call extents rp (heaps heap index))
        (table_uses eid call heaps extents tables) (table_use-Adds extents rp (heaps heap index))
        (table_uses-Adds heaps extents tables)

  buffer_uses-Adds :
      (vbs : List (ℕ × ℕ)) → Adds eid call rid (buffer_claims vbs) (buffer_uses eid call vbs)
  unfolding buffer_uses
  buffer_uses-Adds [] = skip-Adds eid call rid
  buffer_uses-Adds ((slot, res) ∷ vbs) =
      cons-Adds eid call rid res (some read) vb (codes "slot " ++ decimal slot) (buffer_claims vbs)
        (buffer_uses eid call vbs) (buffer_uses-Adds vbs)

  index_use-Adds : (o : Option ℕ) → Adds eid call rid (index_claims o) (index_use eid call o)
  index_use-Adds none = skip-Adds eid call rid
  index_use-Adds (some res) = record_use-Adds eid call rid res (some read) ib []

  target_uses-Adds :
      (targets : List ℕ) → Adds eid call rid (target_claims targets) (target_uses eid call targets)
  unfolding target_uses
  target_uses-Adds [] = skip-Adds eid call rid
  target_uses-Adds (res ∷ targets) =
      cons-Adds eid call rid res (some write) How.rtv [] (target_claims targets)
        (target_uses eid call targets) (target_uses-Adds targets)

  abbrev resource_uses : DrawState → Bool → Heaps → List (ℕ × Extent) → UseLedger → UseLedger
  resource_uses state compute heaps extents ledger =
      table_uses eid call heaps extents
        (sorted_roots (if compute then state.comp_table else state.gfx_table))
        (root_uses eid call How.uav
          (sorted_roots (if compute then state.comp_uav else state.gfx_uav))
          (root_uses eid call How.srv
            (sorted_roots (if compute then state.comp_srv else state.gfx_srv))
            (root_uses eid call How.cbv
              (sorted_roots (if compute then state.comp_cbv else state.gfx_cbv)) ledger)))

  resource_uses-Adds :
      (state : DrawState) (compute : Bool) (heaps : Heaps) (extents : List (ℕ × Extent))
      → Adds eid call rid
          (resource_claims state compute heaps extents)
          (resource_uses state compute heaps extents)
  resource_uses-Adds state compute heaps extents =
      let cbvs = sorted_roots (if compute then state.comp_cbv else state.gfx_cbv) in
      let srvs = sorted_roots (if compute then state.comp_srv else state.gfx_srv) in
      let uavs = sorted_roots (if compute then state.comp_uav else state.gfx_uav) in
      let tables = sorted_roots (if compute then state.comp_table else state.gfx_table) in
      let last =
        append-Adds eid call rid (root_claims How.uav uavs) (table_claims heaps extents tables)
          (root_uses eid call How.uav uavs) (table_uses eid call heaps extents tables)
          (root_uses-Adds How.uav uavs) (table_uses-Adds heaps extents tables) in
      let later =
        append-Adds eid call rid (root_claims How.srv srvs) _ (root_uses eid call How.srv srvs)
          (λ l. table_uses eid call heaps extents tables (root_uses eid call How.uav uavs l))
          (root_uses-Adds How.srv srvs) last in
      append-Adds eid call rid (root_claims How.cbv cbvs) _ (root_uses eid call How.cbv cbvs)
        (λ l.
          table_uses eid call heaps extents tables
            (root_uses eid call How.uav uavs (root_uses eid call How.srv srvs l)))
        (root_uses-Adds How.cbv cbvs) later

  target_end-Adds :
      (state : DrawState)
      → Adds eid call rid
          (target_claims state.rtv
            ++ (record { resource = state.dsv; access = some write; how = How.dsv; detail = [] }
                ∷ []))
          (λ l.
            record_use eid call
              (target_uses eid call state.rtv l)
              state.dsv
              (some write)
              How.dsv
              [])
  target_end-Adds state =
      append-Adds eid call rid (target_claims state.rtv) _ (target_uses eid call state.rtv)
        (λ l. record_use eid call l state.dsv (some write) How.dsv []) (target_uses-Adds state.rtv)
        (record_use-Adds eid call rid state.dsv (some write) How.dsv [])

  abbrev draw_end : DrawState → UseLedger → UseLedger
  draw_end state ledger =
      record_use eid call
        (target_uses eid call state.rtv (
          index_use eid call state.index_buffer
            (buffer_uses eid call (sorted_views state.vbs) ledger)))
        state.dsv (some write) How.dsv []

  abbrev end_claims : DrawState → List Claim
  end_claims state =
      buffer_claims (sorted_views state.vbs)
      ++ (index_claims state.index_buffer
          ++ (target_claims state.rtv
              ++ (record { resource = state.dsv; access = some write; how = How.dsv; detail = [] }
                  ∷ [])))

  draw_end-Adds : (state : DrawState) → Adds eid call rid (end_claims state) (draw_end state)
  draw_end-Adds state =
      append-Adds eid call rid (buffer_claims (sorted_views state.vbs)) _
        (buffer_uses eid call (sorted_views state.vbs))
        (λ l.
          record_use eid call
            (target_uses eid call state.rtv (index_use eid call state.index_buffer l)) state.dsv
            (some write) How.dsv [])
        (buffer_uses-Adds (sorted_views state.vbs))
        (append-Adds eid call rid (index_claims state.index_buffer) _
          (index_use eid call state.index_buffer)
          (λ l.
            record_use eid call (target_uses eid call state.rtv l) state.dsv (some write) How.dsv
              [])
          (index_use-Adds state.index_buffer) (target_end-Adds state))

  -- One draw or dispatch adds to the use list of a resource, at its end, the uses of its bindings that
  -- name the resource, in the order of the walk: root descriptors, tables and, for a draw, vertex
  -- buffers, the index buffer, the targets and the depth target; a binding of the id 0, and a table's
  -- slot that holds nothing or a sampler, is no use.
  pub bind_uses_lem :
      (state : DrawState) (compute : Bool) (heaps : Heaps) (extents : List (ℕ × Extent))
      (ledger : UseLedger)
      → uses_of rid (bind_uses eid call state compute heaps extents ledger)
        ≡ uses_of rid ledger ++ uses_in eid call rid (draw_claims state compute heaps extents)
  unfolding bind_uses
  bind_uses_lem state true heaps extents ledger = resource_uses-Adds state true heaps extents ledger
  bind_uses_lem state false heaps extents ledger =
      append-Adds eid call rid (resource_claims state false heaps extents) (end_claims state)
        (resource_uses state false heaps extents) (draw_end state)
        (resource_uses-Adds state false heaps extents) (draw_end-Adds state) ledger
