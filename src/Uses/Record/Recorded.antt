-- ===== src/Uses/Record/Recorded.antt =====
-- A step of the walk as the claims that it adds to the use list of one resource.
use Prim.Native.String.{String}
use rdc_tools.Prelude.{
  ℕ, ◌≡◌, refl, arith, inl, inr, sym, ap, ◌∙◌, not, ◌&&◌, Option, none, some, List, [], ◌∷◌, ◌++◌,
  ◌==◌, append-nil, append_assoc, if◌then◌else◌, Bool-cases,
}
use rdc_tools.Uses.{Access, How, UseInfo, ResourceUse}
use rdc_tools.Uses.Ledger.{lookup, with_use, lookup-use_resource}
use rdc_tools.Uses.Record.{UseLedger, record_use}

-- The uses that the ledger has for an id.
abbrev pub uses_of : ℕ → UseLedger → List UseInfo
uses_of rid ledger = elim (lookup rid ledger.resources) [ none ↦ [] | some r ↦ r.uses ]

-- A use of a resource, which is none where there is no access or the id is 0.
pub record Claim : Type 0 where
  pub resource : ℕ
  pub access : Option Access
  pub how : How
  pub detail : List ℕ

module _ (eid : ℕ) (call : String) (rid : ℕ) where
  -- The use that a claim is, where it is one of this resource.
  abbrev pub use_of : Claim → List UseInfo
  use_of c = elim c.access [
    | none ↦ []
    | some a ↦
        (if not (c.resource == 0) && c.resource == rid
          then record { eid = eid; access = a; how = c.how; call = call; detail = c.detail } ∷ []
          else [])
  ]

  abbrev pub uses_in : List Claim → List UseInfo
  uses_in [] = []
  uses_in (c ∷ cs) = use_of c ++ uses_in cs

  with_use-uses :
      (u : UseInfo) (r : Option ResourceUse)
      → (with_use u r).uses ≡ elim r [ none ↦ [] | some x ↦ x.uses ] ++ (u ∷ [])
  with_use-uses u none = refl
  with_use-uses u (some r) = refl

  uses_of-record_use :
      (ledger : UseLedger) (k : ℕ) (access : Option Access) (how : How) (detail : List ℕ)
      → uses_of rid (record_use eid call ledger k access how detail)
        ≡ uses_of rid ledger
          ++ use_of (record { resource = k; access = access; how = how; detail = detail })
  uses_of-record_use ledger k none how detail =
      rw (uses_of, lookup-use_resource ledger.resources k rid eid none how call detail)
        (sym (append-nil (uses_of rid ledger)))
  uses_of-record_use ledger k (some a) how detail =
      rw (uses_of, lookup-use_resource ledger.resources k rid eid (some a) how call detail)
        (elim (Bool-cases (not (k == 0) && k == rid)) [
          | inl e ↦
              let same : k ≡ rid = ground (arith, e) in
              rw (e, same) (with_use-uses _ (lookup rid ledger.resources))
          | inr e ↦ rw e (sym (append-nil (uses_of rid ledger)))
        ])

  -- A step of the walk adds the uses of some claims, whatever the ledger holds.
  abbrev pub Adds : List Claim → (UseLedger → UseLedger) → Type 0
  Adds cs f = (ledger : UseLedger) → uses_of rid (f ledger) ≡ uses_of rid ledger ++ uses_in cs

  uses_in-append : (cs ds : List Claim) → uses_in (cs ++ ds) ≡ uses_in cs ++ uses_in ds
  uses_in-append [] ds = refl
  uses_in-append (c ∷ cs) ds =
      rw (uses_in-append cs ds) (sym (append_assoc (use_of c) (uses_in cs) (uses_in ds)))

  pub skip-Adds : Adds [] (λ ledger. ledger)
  skip-Adds ledger = sym (append-nil (uses_of rid ledger))

  pub record_use-Adds :
      (k : ℕ) (access : Option Access) (how : How) (detail : List ℕ)
      → Adds
          (record { resource = k; access = access; how = how; detail = detail } ∷ [])
          (λ ledger. record_use eid call ledger k access how detail)
  record_use-Adds k access how detail ledger =
      uses_of-record_use ledger k access how detail
      ∙ ap (λ us. uses_of rid ledger ++ us)
          (sym (
            append-nil
              (use_of (record { resource = k; access = access; how = how; detail = detail }))))

  pub append-Adds :
      (cs ds : List Claim) (f g : UseLedger → UseLedger)
      → Adds cs f
      → Adds ds g
      → Adds (cs ++ ds) (λ ledger. g (f ledger))
  append-Adds cs ds f g a b ledger =
      b (f ledger)
      ∙ ap (λ us. us ++ uses_in ds) (a ledger)
      ∙ append_assoc (uses_of rid ledger) (uses_in cs) (uses_in ds)
      ∙ ap (λ us. uses_of rid ledger ++ us) (sym (uses_in-append cs ds))

module _ (eid : ℕ) (call : String) (rid : ℕ) where
  pub cons-Adds :
      (k : ℕ) (access : Option Access) (how : How) (detail : List ℕ) (ds : List Claim)
      (g : UseLedger → UseLedger)
      → Adds eid call rid ds g
      → Adds eid call rid
          (record { resource = k; access = access; how = how; detail = detail } ∷ ds)
          (λ ledger. g (record_use eid call ledger k access how detail))
  cons-Adds k access how detail ds g =
      append-Adds eid call rid
        (record { resource = k; access = access; how = how; detail = detail } ∷ []) ds
        (λ ledger. record_use eid call ledger k access how detail) g
        (record_use-Adds eid call rid k access how detail)
