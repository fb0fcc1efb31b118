-- ===== src/Dsl/Invariant.antt =====
-- What applying a configuration (dsl/loader.py) keeps of the registry that it changes in place.
use db_connections.Dict.{contains, get, get-insert, get-insert_self, insert}
use db_connections.Domain.{KindSpec, ModelClass, TypeSpec}
use db_connections.Dsl.Applying.{apply_dsl_registry, apply_kinds, apply_types}
use db_connections.Dsl.Config.{DbConnectionDslConfig, DslKindSpec, DslTypeSpec}
use db_connections.Dsl.References.{Importer}
use db_connections.Dsl.Specs.{build_kind_spec, build_type_spec}
use db_connections.Prelude.{
  Bool-cases, List, Option, String, [], arith, eq_iff, false, inl, inr, none, refl, subst, sym,
  true, ◌==◌, ◌∙◌, ◌∷◌, ◌≡◌, ◌⊎◌,
}
use db_connections.Registry.{ConnectionRegistry, register_kind, register_type}
use db_connections.Registry.Invariant.{
  IsWellFormed, register_kind-IsWellFormed, register_type-IsWellFormed,
}
use db_connections.Result.{Result-cases, ok}

-- nothing that was registered is replaced or taken away
pub record Extends (r r' : ConnectionRegistry) : Type 0 where
  pub kinds_kept : (j : String) → (get j r.kinds ≡ none) ⊎ (get j r'.kinds ≡ get j r.kinds)
  pub types_kept : (j : String) → (get j r.types ≡ none) ⊎ (get j r'.types ≡ get j r.types)

pub Extends-refl : (r : ConnectionRegistry) → Extends r r
Extends-refl r = record { kinds_kept = λ j. inr refl; types_kept = λ j. inr refl }

kept_twice :
    {A : Type 0} {a b c : Option A}
    → (a ≡ none) ⊎ (b ≡ a)
    → (b ≡ none) ⊎ (c ≡ b)
    → (a ≡ none) ⊎ (c ≡ a)
kept_twice (inl h) k = inl h
kept_twice (inr h) (inl k) = inl (sym h ∙ k)
kept_twice (inr h) (inr k) = inr (k ∙ h)

pub Extends-trans : (r r1 r2 : ConnectionRegistry) → Extends r r1 → Extends r1 r2 → Extends r r2
Extends-trans r r1 r2 a b = record {
  kinds_kept = λ j. kept_twice (a.kinds_kept j) (b.kinds_kept j);
  types_kept = λ j. kept_twice (a.types_kept j) (b.types_kept j);
}

pub register_kind-Extends :
    (spec : KindSpec) (r r' : ConnectionRegistry)
    → register_kind spec false r ≡ ok r'
    → Extends r r' × (contains spec.name r'.kinds ≡ true)
unfolding register_kind
register_kind-Extends spec r r' h =
    let free : contains spec.name r.kinds ≡ false = ground arith in
    let stored : record r { kinds = insert spec.name spec r.kinds } ≡ r' = ground arith in
    subst (λ x. Extends r x × (contains spec.name x.kinds ≡ true)) stored
      (
        record {
          kinds_kept = λ j. elim (Bool-cases (spec.name == j)) [
            | inl same ↦ inl (ground (arith, eq_iff spec.name j))
            | inr d ↦ inr (rw (get-insert spec.name j spec r.kinds, d))
          ];
          types_kept = λ j. inr refl;
        },
        simp get-insert_self,
      )

pub register_type-Extends :
    (spec : TypeSpec) (r r' : ConnectionRegistry)
    → register_type spec false r ≡ ok r'
    → Extends r r' × (contains spec.name r'.types ≡ true)
unfolding register_type
register_type-Extends spec r r' h =
    let free : contains spec.name r.types ≡ false = ground arith in
    let stored : record r { types = insert spec.name spec r.types } ≡ r' = ground arith in
    subst (λ x. Extends r x × (contains spec.name x.types ≡ true)) stored
      (
        record {
          types_kept = λ j. elim (Bool-cases (spec.name == j)) [
            | inl same ↦ inl (ground (arith, eq_iff spec.name j))
            | inr d ↦ inr (rw (get-insert spec.name j spec r.types, d))
          ];
          kinds_kept = λ j. inr refl;
        },
        simp get-insert_self,
      )

-- a property of registries that registrations keep
module _ (P : ConnectionRegistry → Type 0)
    (kind_step : (spec : KindSpec) (r r' : ConnectionRegistry)
      → P r
      → register_kind spec false r ≡ ok r'
      → P r')
    (type_step : (spec : TypeSpec) (r r' : ConnectionRegistry)
      → P r
      → register_type spec false r ≡ ok r'
      → P r') where
  pub apply_kinds_keep :
      (ks : List DslKindSpec) (r : ConnectionRegistry) → P r → P (apply_kinds ks r).1
  unfolding apply_kinds
  apply_kinds_keep [] r p = p
  apply_kinds_keep (k ∷ ks) r p = elim (Result-cases (register_kind (build_kind_spec k) false r)) [
    | inl (r', e) ↦ rw e (apply_kinds_keep ks r' (kind_step (build_kind_spec k) r r' p e))
    | inr (x, e) ↦ rw e p
  ]

  module _ (importer : Importer) (no_driver_options : ModelClass) where
    pub apply_types_keep :
        (ts : List DslTypeSpec) (r : ConnectionRegistry)
        → P r
        → P (apply_types importer no_driver_options ts r).1
    unfolding apply_types
    apply_types_keep [] r p = p
    apply_types_keep (t ∷ ts) r p =
        elim (Result-cases (build_type_spec importer no_driver_options t)) [
          | inr (x, e) ↦ rw e p
          | inl (spec, e) ↦ elim (Result-cases (register_type spec false r)) [
            | inl (r', e1) ↦ rw (e, e1) (apply_types_keep ts r' (type_step spec r r' p e1))
            | inr (x, e1) ↦ rw (e, e1) p
          ]
        ]

    apply_keep :
        (config : DbConnectionDslConfig) (r : ConnectionRegistry)
        → P r
        → P (apply_dsl_registry importer no_driver_options config r).1
    unfolding apply_dsl_registry
    apply_keep config r p = elim (Result-cases (apply_kinds config.kinds r).0) [
      | inl (u, e) ↦ rw e (
          apply_types_keep config.types (apply_kinds config.kinds r).1
            (apply_kinds_keep config.kinds r p))
      | inr (x, e) ↦ rw e (apply_kinds_keep config.kinds r p)
    ]

module _ (importer : Importer) (no_driver_options : ModelClass) where
  -- Applying a configuration keeps the registry well formed, even where it raises halfway and
  -- leaves the entries that came before.
  pub apply_dsl_registry-IsWellFormed :
      (config : DbConnectionDslConfig) (r : ConnectionRegistry)
      → IsWellFormed r
      → IsWellFormed (apply_dsl_registry importer no_driver_options config r).1
  apply_dsl_registry-IsWellFormed =
      apply_keep IsWellFormed (λ spec r r' w e. register_kind-IsWellFormed spec false r r' w e)
        (λ spec r r' w e. register_type-IsWellFormed spec false r r' w e) importer no_driver_options

  pub apply_dsl_registry-Extends :
      (config : DbConnectionDslConfig) (r : ConnectionRegistry)
      → Extends r (apply_dsl_registry importer no_driver_options config r).1
  apply_dsl_registry-Extends config r =
      apply_keep (Extends r)
        (λ spec r1 r2 x e. Extends-trans r r1 r2 x (register_kind-Extends spec r1 r2 e).0)
        (λ spec r1 r2 x e. Extends-trans r r1 r2 x (register_type-Extends spec r1 r2 e).0) importer
        no_driver_options config r (Extends-refl r)

-- the two loops extend the registry
pub apply_kinds-Extends :
    (ks : List DslKindSpec) (r : ConnectionRegistry) → Extends r (apply_kinds ks r).1
apply_kinds-Extends ks r =
    apply_kinds_keep (Extends r)
      (λ spec r1 r2 x e. Extends-trans r r1 r2 x (register_kind-Extends spec r1 r2 e).0)
      (λ spec r1 r2 x e. Extends-trans r r1 r2 x (register_type-Extends spec r1 r2 e).0) ks r
      (Extends-refl r)

pub apply_types-Extends :
    (importer : Importer) (no_driver_options : ModelClass) (ts : List DslTypeSpec)
    (r : ConnectionRegistry)
    → Extends r (apply_types importer no_driver_options ts r).1
apply_types-Extends importer no_driver_options ts r =
    apply_types_keep (Extends r)
      (λ spec r1 r2 x e. Extends-trans r r1 r2 x (register_kind-Extends spec r1 r2 e).0)
      (λ spec r1 r2 x e. Extends-trans r r1 r2 x (register_type-Extends spec r1 r2 e).0) importer
      no_driver_options ts r (Extends-refl r)
