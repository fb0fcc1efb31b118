-- ===== src/Registry/Invariant.antt =====
-- The invariant of a registry: every spec stands once, under its own name, and a type's kind is
-- registered. The two registration methods keep it.
use db_connections.Dict.{Dict, contains, get-insert, insert, values}
use db_connections.Dict.Keyed.{All, IsKeyed, insert-IsKeyed, values-insert-All}
use db_connections.Domain.{KindSpec, TypeSpec}
use db_connections.Prelude.{
  Bool, Bool-cases, List, String, [], arith, inl, inr, not, subst, true, ◌&&◌, ◌∷◌, ◌≡◌,
}
use db_connections.Registry.{
  ConnectionRegistry, empty_registry, kind_name, register_kind, register_type, type_name_of,
}
use db_connections.Result.{ok}

-- the kind of a type is registered
abbrev pub HasKind : ConnectionRegistry → TypeSpec → Type 0
HasKind r s = contains s.kind r.kinds ≡ true

pub record IsWellFormed (r : ConnectionRegistry) : Type 0 where
  pub kinds_keyed : IsKeyed kind_name r.kinds
  pub types_keyed : IsKeyed type_name_of r.types
  pub kinds_known : All (HasKind r) (values r.types)

pub empty_registry-IsWellFormed : IsWellFormed empty_registry
empty_registry-IsWellFormed = record { kinds_keyed = tt; types_keyed = tt; kinds_known = tt }

-- registering a kind takes none away
contains-insert_kind :
    (spec : KindSpec) (k : String) (d : Dict KindSpec)
    → contains k d ≡ true
    → contains k (insert spec.name spec d) ≡ true
contains-insert_kind spec k d h = ground (arith, get-insert spec.name k spec d)

kinds_known-insert :
    (spec : KindSpec) (r : ConnectionRegistry) (ts : List TypeSpec)
    → All (HasKind r) ts
    → All (HasKind (record r { kinds = insert spec.name spec r.kinds })) ts
kinds_known-insert spec r [] h = tt
kinds_known-insert spec r (t ∷ ts) h =
    (contains-insert_kind spec t.kind r.kinds h.0, kinds_known-insert spec r ts h.1)

-- Registering a kind, new or overwriting, keeps the registry well formed.
pub register_kind-IsWellFormed :
    (spec : KindSpec) (overwrite : Bool) (r r' : ConnectionRegistry)
    → IsWellFormed r
    → register_kind spec overwrite r ≡ ok r'
    → IsWellFormed r'
unfolding register_kind
register_kind-IsWellFormed spec overwrite r r' w e =
    elim (Bool-cases (contains spec.name r.kinds && not overwrite)) [
      | inl taken ↦ cc (taken, e)
      | inr free ↦
          let stored : record r { kinds = insert spec.name spec r.kinds } ≡ r' = ground arith in
          subst IsWellFormed stored (record {
            kinds_keyed = insert-IsKeyed kind_name spec r.kinds w.kinds_keyed;
            types_keyed = w.types_keyed;
            kinds_known = kinds_known-insert spec r (values r.types) w.kinds_known;
          })
    ]

-- Registering a type, new or overwriting, keeps the registry well formed.
pub register_type-IsWellFormed :
    (spec : TypeSpec) (overwrite : Bool) (r r' : ConnectionRegistry)
    → IsWellFormed r
    → register_type spec overwrite r ≡ ok r'
    → IsWellFormed r'
unfolding register_type
register_type-IsWellFormed spec overwrite r r' w e =
    let known : contains spec.kind r.kinds ≡ true = ground arith in
    let stored : record r { types = insert spec.name spec r.types } ≡ r' = ground arith in
    subst IsWellFormed stored (record {
      kinds_keyed = w.kinds_keyed;
      types_keyed = insert-IsKeyed type_name_of spec r.types w.types_keyed;
      kinds_known = values-insert-All (HasKind r) spec.name spec r.types known w.kinds_known;
    })
