-- ===== src/Uses/Ledger.antt =====
-- `_use` and `_va_resource` of src/py/rdc_uses.py: recording one use in the ledger's dict of
-- resources, an association list in insertion order, and the buffer that a GPU address falls in. An
-- access of '' is `none`.
use Prim.Native.String.{String}
use rdc_tools.Prelude.{
  All, ℕ, ◌+◌, ◌<◌, ◌≡◌, ◌≢◌, ◌⊎◌, refl, arith, inl, inr, Bool, true, false, not, ◌&&◌, Option,
  none, some, List, [], ◌∷◌, ◌++◌, leb, ltb, ◌==◌, if◌then◌else◌, Bool-cases,
}
use rdc_tools.Uses.{UseInfo, ResourceUse, Access, How, external}

abbrev pub Table : Type 0
Table = List (ℕ × ResourceUse)

unfoldable pub lookup : ℕ → Table → Option ResourceUse
lookup rid [] = none
lookup rid ((k, rec) ∷ t) = if k == rid then some rec else lookup rid t

-- `record['uses'].append(u)`, of a record that is made where there is none.
abbrev pub with_use : UseInfo → Option ResourceUse → ResourceUse
with_use u none = record { created = 0; placement = external; heap = 0; offset = 0; uses = u ∷ [] }
with_use u (some rec) = record rec { uses = rec.uses ++ u ∷ [] }

unfoldable pub append_use : ℕ → UseInfo → Table → Table
append_use rid u [] = (rid, with_use u none) ∷ []
append_use rid u ((k, rec) ∷ t) =
    if k == rid then (k, with_use u (some rec)) ∷ t else (k, rec) ∷ append_use rid u t

unfoldable pub use_resource : Table → ℕ → ℕ → Option Access → How → String → List ℕ → Table
use_resource t rid eid none how call detail = t
use_resource t rid eid (some access) how call detail =
    if rid == 0
    then t
    else append_use rid
        (record { eid = eid; access = access; how = how; call = call; detail = detail }) t

lookup-append_use :
    (rid k : ℕ) (u : UseInfo) (t : Table)
    → lookup k (append_use rid u t)
      ≡ (if rid == k then some (with_use u (lookup rid t)) else lookup k t)
unfolding lookup append_use
lookup-append_use rid k u [] = ground arith
lookup-append_use rid k u ((j, rec) ∷ t) = ground (arith, lookup-append_use rid k u t)

-- Recording a use appends it to its resource's list, makes an external resource of an id that the
-- ledger does not hold, and touches no other id; a use of resource 0, or with no access, changes
-- nothing.
pub lookup-use_resource :
    (t : Table) (rid k eid : ℕ) (access : Option Access) (how : How) (call : String)
    (detail : List ℕ)
    → lookup k (use_resource t rid eid access how call detail) ≡ elim access [
      | none ↦ lookup k t
      | some a ↦
          if not (rid == 0) && rid == k
          then some (
              with_use
                (record { eid = eid; access = a; how = how; call = call; detail = detail })
                (lookup rid t))
          else lookup k t
    ]
unfolding use_resource
lookup-use_resource t rid k eid none how call detail = refl
lookup-use_resource t rid k eid (some a) how call detail = ground (
  arith,
  lookup-append_use rid k
      (record { eid = eid; access = a; how = how; call = call; detail = detail }) t,
)

pub record Extent : Type 0 where
  pub gpu_address : ℕ
  pub size : ℕ

-- `base and info['size'] and base <= va < base + info['size']`
abbrev pub covers : ℕ → Extent → Bool
covers va x =
    not (x.gpu_address == 0)
    && not (x.size == 0)
    && (leb x.gpu_address va && ltb va (x.gpu_address + x.size))

unfoldable pub va_resource : List (ℕ × Extent) → ℕ → ℕ
va_resource [] va = 0
va_resource ((rid, info) ∷ rest) va = if covers va info then rid else va_resource rest va

unfoldable pub AnyCovers : ℕ → ℕ → List (ℕ × Extent) → Type 0
AnyCovers rid va [] = ⊥
AnyCovers rid va ((k, info) ∷ rest) =
    (((k ≡ rid) × (covers va info ≡ true)) ⊎ AnyCovers rid va rest)

AnyCovers-here :
    (rid va : ℕ) (info : Extent) (rest : List (ℕ × Extent))
    → covers va info ≡ true
    → AnyCovers rid va ((rid, info) ∷ rest)
unfolding AnyCovers
AnyCovers-here rid va info rest e = inl (refl, e)

AnyCovers-there :
    (rid va k : ℕ) (info : Extent) (rest : List (ℕ × Extent))
    → AnyCovers rid va rest
    → AnyCovers rid va ((k, info) ∷ rest)
unfolding AnyCovers
AnyCovers-there rid va k info rest h = inr h

va_resource_hit :
    (rid va : ℕ) (info : Extent) (rest : List (ℕ × Extent))
    → covers va info ≡ true
    → va_resource ((rid, info) ∷ rest) va ≡ rid
unfolding va_resource
va_resource_hit rid va info rest e = rw e refl

va_resource_skip :
    (rid va : ℕ) (info : Extent) (rest : List (ℕ × Extent))
    → covers va info ≡ false
    → va_resource ((rid, info) ∷ rest) va ≡ va_resource rest va
unfolding va_resource
va_resource_skip rid va info rest e = rw e refl

va_resource_nil : (va : ℕ) → va_resource [] va ≡ 0
unfolding va_resource
va_resource_nil va = refl

-- Where no resource has the id 0: the id that an address resolves to is that of a buffer that covers
-- it, and it resolves to 0 exactly where no buffer of the table covers it.
va_resource_sound :
    (table : List (ℕ × Extent)) (va : ℕ)
    → All (λ r. 0 < r.0) table
    → (va_resource table va ≢ 0 → AnyCovers (va_resource table va) va table)
      × (va_resource table va ≡ 0 → All (λ r. covers va r.1 ≡ false) table)
va_resource_sound [] va h = (λ ne. absurd (ne (va_resource_nil va)), λ z. tt)
va_resource_sound ((rid, info) ∷ rest) va (p, ps) = elim (Bool-cases (covers va info)) [
  | inl e ↦
      rw (va_resource_hit rid va info rest e)
        (λ ne. AnyCovers-here rid va info rest e, λ z. absurd (omega arith))
  | inr e ↦
      let (a, b) = va_resource_sound rest va ps in
      rw (va_resource_skip rid va info rest e)
        (λ ne. AnyCovers-there (va_resource rest va) va rid info rest (a ne), λ z. (e, b z))
]
