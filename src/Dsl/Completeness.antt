-- ===== src/Dsl/Completeness.antt =====
-- What applying a configuration (dsl/loader.py) registers.
use db_connections.Dict.{Dict, contains, get}
use db_connections.Domain.{ModelClass, TypeSpec, post_init}
use db_connections.Dsl.Applying.{apply_dsl_registry, apply_kinds, apply_types}
use db_connections.Dsl.Config.{DbConnectionDslConfig, DslKindSpec, DslTypeSpec}
use db_connections.Dsl.Invariant.{
  Extends, apply_dsl_registry-Extends, apply_kinds-Extends, apply_types-Extends,
  register_kind-Extends, register_type-Extends,
}
use db_connections.Dsl.References.{
  Importer, resolve_model_class, resolve_optional_callable, resolve_optional_model_class,
}
use db_connections.Dsl.Specs.{build_driver_specs, build_kind_spec, build_type_spec}
use db_connections.Prelude.{
  Bool, List, String, [], all, ap, arith, false, inl, inr, is_some, none, refl, subst, sym, true,
  ◌&&◌, ◌||◌, ◌∙◌, ◌∷◌, ◌≡◌, ◌⊎◌,
}
use db_connections.Registry.{ConnectionRegistry, register_kind, register_type}
use db_connections.Result.{Result-cases, is_err, ok, passed}

both : {b c : Bool} → b ≡ true → c ≡ true → (b && c) ≡ true
both h k = simp (h, k)

contains_kept :
    {A : Type 0} (j : String) (d d' : Dict A)
    → (get j d ≡ none) ⊎ (get j d' ≡ get j d)
    → contains j d ≡ true
    → contains j d' ≡ true
contains_kept j d d' (inl h) c = ground arith
contains_kept j d d' (inr h) c = ap is_some h ∙ c

-- the kinds and types of a configuration are registered
abbrev pub has_kinds : List DslKindSpec → ConnectionRegistry → Bool
has_kinds ks r = all (λ (k : DslKindSpec). contains k.name r.kinds) ks

abbrev pub has_types : List DslTypeSpec → ConnectionRegistry → Bool
has_types ts r = all (λ (t : DslTypeSpec). contains t.name r.types) ts

has_kinds-Extends :
    (ks : List DslKindSpec) (r r' : ConnectionRegistry)
    → Extends r r'
    → has_kinds ks r ≡ true
    → has_kinds ks r' ≡ true
has_kinds-Extends [] r r' x h = refl
has_kinds-Extends (k ∷ ks) r r' x h =
    let c = contains_kept k.name r.kinds r'.kinds (x.kinds_kept k.name) in
    ground (arith, has_kinds-Extends ks r r' x)

apply_kinds-has_kinds :
    (ks : List DslKindSpec) (r : ConnectionRegistry)
    → (apply_kinds ks r).0 ≡ ok tt
    → has_kinds ks (apply_kinds ks r).1 ≡ true
unfolding apply_kinds
apply_kinds-has_kinds [] r h = refl
apply_kinds-has_kinds (k ∷ ks) r h =
    elim (Result-cases (register_kind (build_kind_spec k) false r)) [
      | inr (x, e) ↦ ground arith
      | inl (r', e) ↦
          let (x, c) = register_kind-Extends (build_kind_spec k) r r' e in
          let y = apply_kinds-Extends ks r' in
          let rest = apply_kinds-has_kinds ks r' (rw e at h) in
          let c' =
            contains_kept k.name r'.kinds (apply_kinds ks r').1.kinds (y.kinds_kept k.name) c in
          let run : apply_kinds (k ∷ ks) r ≡ apply_kinds ks r' = rw e refl in
          subst (λ x. has_kinds (k ∷ ks) x.1 ≡ true) (sym run) (both c' rest)
    ]

post_init-name :
    (no_driver_options : ModelClass) (spec spec' : TypeSpec)
    → post_init no_driver_options spec ≡ ok spec'
    → spec'.name ≡ spec.name
unfolding post_init
post_init-name no_driver_options spec spec' h = ground arith

-- the name of the spec that is built is the entry's
build_type_spec-name :
    (importer : Importer) (no_driver_options : ModelClass) (t : DslTypeSpec) (spec : TypeSpec)
    → build_type_spec importer no_driver_options t ≡ ok spec
    → spec.name ≡ t.name
unfolding build_type_spec
build_type_spec-name importer no_driver_options t spec h =
    let (p, e1, h1) = passed (resolve_model_class importer t.properties_model) _ spec h in
    let (s, e2, h2) = passed (resolve_optional_model_class importer t.secrets_model) _ spec h1 in
    let (m, e3, h3) = passed (resolve_optional_model_class importer t.public_model) _ spec h2 in
    let (c, e4, h4) = passed (resolve_optional_callable importer t.connector_factory) _ spec h3 in
    let (d, e5, h5) = passed (build_driver_specs importer no_driver_options t) _ spec h4 in
    post_init-name no_driver_options _ spec h5

module _ (importer : Importer) (no_driver_options : ModelClass) where
  apply_types-has_types :
      (ts : List DslTypeSpec) (r : ConnectionRegistry)
      → (apply_types importer no_driver_options ts r).0 ≡ ok tt
      → has_types ts (apply_types importer no_driver_options ts r).1 ≡ true
  unfolding apply_types
  apply_types-has_types [] r h = refl
  apply_types-has_types (t ∷ ts) r h =
      elim (Result-cases (build_type_spec importer no_driver_options t)) [
        | inr (x, e) ↦ ground arith
        | inl (spec, e) ↦ elim (Result-cases (register_type spec false r)) [
          | inr (x, e1) ↦ ground arith
          | inl (r', e1) ↦
              let (x, c) = register_type-Extends spec r r' e1 in
              let y = apply_types-Extends importer no_driver_options ts r' in
              let rest = apply_types-has_types ts r' (rw (e, e1) at h) in
              let same = build_type_spec-name importer no_driver_options t spec e in
              let c1 : contains t.name r'.types ≡ true = rw (← same) c in
              let c' =
                contains_kept t.name r'.types (apply_types importer no_driver_options ts r').1.types
                  (y.types_kept t.name) c1 in
              let run : apply_types importer no_driver_options (t ∷ ts) r
                  ≡ apply_types importer no_driver_options ts r' =
                rw (e, e1) refl in
              subst (λ x. has_types (t ∷ ts) x.1 ≡ true) (sym run) (both c' rest)
        ]
      ]

  -- Applying a configuration never replaces or removes a kind or type that was registered, whether
  -- it raises or not; and where it returns, all kinds and types of the configuration are
  -- registered.
  pub apply_dsl_registry_lem :
      (config : DbConnectionDslConfig) (r : ConnectionRegistry)
      → let run = apply_dsl_registry importer no_driver_options config r in
        Extends r run.1
        × ((is_err run.0 || (has_kinds config.kinds run.1 && has_types config.types run.1)) ≡ true)
  unfolding apply_dsl_registry
  apply_dsl_registry_lem config r = (
    apply_dsl_registry-Extends importer no_driver_options config r,
    elim (Result-cases (apply_kinds config.kinds r).0) [
      | inr (x, e) ↦ ground arith
      | inl (u, e) ↦
          let r1 = (apply_kinds config.kinds r).1 in
          elim (Result-cases (apply_types importer no_driver_options config.types r1).0) [
            | inr (x, e1) ↦ ground arith
            | inl (u', e1) ↦
                let k = apply_kinds-has_kinds config.kinds r e in
                let k' =
                  has_kinds-Extends config.kinds r1 _
                    (apply_types-Extends importer no_driver_options config.types r1) k in
                let t = apply_types-has_types config.types r1 e1 in simp (e, e1, k', t)
          ]
    ],
  )
