-- ===== src/Api/Builder/Built.antt =====
-- fastapi/builder.py: what is known of the runtime of an extension that was built.
use db_connections.Api.Builder.{
  ExtensionBuilder, PluginEntryPointRequest, build_extension, build_registry, build_settings,
  fill_registry, first_registry, load_request, merge_given, plugin_requests_from_dsl,
}
use db_connections.Api.Builder.Building.{IsTame, fill_registry-Keeps}
use db_connections.Api.Builder.Given.{
  HasKinds, HasTypes, get_kind-kept, get_type-kept, loop-All, loop-Extends, register_kind-get_kind,
  register_type-get_type,
}
use db_connections.Dict.Keyed.{All}
use db_connections.Domain.{KindSpec, TypeSpec}
use db_connections.Dsl.Applying.{apply_dsl_registry, in_place}
use db_connections.Dsl.Invariant.{Extends, register_kind-Extends, register_type-Extends}
use db_connections.Dsl.References.{Importer}
use db_connections.Exec.{Exec, for_each, ◌>>=◌}
use db_connections.Plugins.{EntryPoint}
use db_connections.Prelude.{
  Bool, List, Option-cases, String, [], arith, false, inl, inr, refl, some, subst, sym, true, ◌∙◌,
  ◌∷◌, ◌≡◌,
}
use db_connections.Registry.{
  ConnectionRegistry, empty_registry, get_kind, get_type, register_kind, register_type,
}
use db_connections.Registry.Defaults.{Builtins, build_default_registry_lem}
use db_connections.Registry.Invariant.{IsWellFormed, empty_registry-IsWellFormed}
use db_connections.Result.{Result, Result-cases, ok}
use db_connections.Runtime.{DbConnectionRuntime, IsCurrent, new_runtime, new_runtime-IsCurrent}
use db_connections.Tests.Data.{registry}

-- a computation that returns goes on with what its first part returned
bind_passed :
    {S A B : Type 0} (m : Exec S A) (f : A → Exec S B) (s : S) (b : B)
    → ((m >>= f) s).0 ≡ ok b
    → (a : A) × ((m s).0 ≡ ok a) × ((m >>= f) s ≡ f a (m s).1)
bind_passed m f s b h = elim (Result-cases (m s).0) [
  | inl (a, e) ↦ (a, e, rw e refl)
  | inr (x, e) ↦ absurd (ground arith)
]

abbrev kind_step : KindSpec → ConnectionRegistry → Result ConnectionRegistry
kind_step spec = register_kind spec false

abbrev type_step : TypeSpec → ConnectionRegistry → Result ConnectionRegistry
type_step spec = register_type spec false

abbrev register_kinds_loop : List KindSpec → Exec ConnectionRegistry (Unit {0})
register_kinds_loop kinds = for_each kinds (λ kind. in_place (kind_step kind))

abbrev register_types_loop : List TypeSpec → Exec ConnectionRegistry (Unit {0})
register_types_loop types = for_each types (λ type. in_place (type_step type))

kinds_kept :
    (kinds : List KindSpec) (r r' : ConnectionRegistry)
    → Extends r r'
    → HasKinds kinds r
    → HasKinds kinds r'
kinds_kept [] r r' x h = tt
kinds_kept (k ∷ kinds) r r' x h = (get_kind-kept k r r' x h.0, kinds_kept kinds r r' x h.1)

kind_added :
    (spec : KindSpec) (r r' : ConnectionRegistry)
    → register_kind spec false r ≡ ok r'
    → Extends r r' × (get_kind spec.name r' ≡ ok spec)
kind_added spec r r' e = ((register_kind-Extends spec r r' e).0, register_kind-get_kind spec r r' e)

type_added :
    (spec : TypeSpec) (r r' : ConnectionRegistry)
    → register_type spec false r ≡ ok r'
    → Extends r r' × (get_type spec.name r' ≡ ok spec)
type_added spec r r' e = ((register_type-Extends spec r r' e).0, register_type-get_type spec r r' e)

-- the kinds, which are registered first, are still there when the types are
last_loops :
    (kinds : List KindSpec) (types : List TypeSpec) (r : ConnectionRegistry)
    → let run = (register_kinds_loop kinds >>= λ u. register_types_loop types) r in
      run.0 ≡ ok tt → HasKinds kinds run.1 × HasTypes types run.1
last_loops kinds types r h =
    let (u, e, run) =
      bind_passed (register_kinds_loop kinds) (λ u. register_types_loop types) r tt h in
    let r' = (register_kinds_loop kinds r).1 in
    let added =
      loop-All kind_step (λ k. λ x. get_kind k.name x ≡ ok k) kind_added get_kind-kept kinds r e in
    let x =
      loop-Extends type_step (λ t. λ x. get_type t.name x ≡ ok t) type_added get_type-kept types
        r' in
    subst (λ x. HasKinds kinds x.1 × HasTypes types x.1) (sym run)
      (
        kinds_kept kinds r' (register_types_loop types r').1 x added,
        loop-All type_step (λ t. λ x. get_type t.name x ≡ ok t) type_added get_type-kept types r'
            (rw run at h),
      )

module _ (builtins : Builtins) (importer : Importer) (discovered : String → List EntryPoint) where
  fill_registry-Has :
      {S : Type 0} (b : ExtensionBuilder S) (r : ConnectionRegistry)
      → let run = fill_registry builtins importer discovered b r in
        run.0 ≡ ok tt → HasKinds b.kinds run.1 × HasTypes b.types run.1
  unfolding fill_registry
  fill_registry-Has b r h =
      let last =
        λ (u : Unit {0}). register_kinds_loop b.kinds >>= λ v. register_types_loop b.types in
      let Goal = λ (x : Result (Unit {0}) × ConnectionRegistry).
        HasKinds b.kinds x.1 × HasTypes b.types x.1 in
      let (u1, e1, run1) = bind_passed (merge_given b.registry) _ r tt h in
      let r1 = (merge_given b.registry r).1 in
      let dsl = for_each b.dsl_configs (apply_dsl_registry importer builtins.no_driver_options) in
      let (u2, e2, run2) = bind_passed dsl _ r1 tt (rw run1 at h) in
      let load =
        λ (requests : List PluginEntryPointRequest). for_each requests (load_request discovered) in
      let r2 = (dsl r1).1 in
      let (u3, e3, run3) =
        bind_passed (load (plugin_requests_from_dsl b.dsl_configs)) _ r2 tt
          (rw (run1, run2) at h) in
      let r3 = (load (plugin_requests_from_dsl b.dsl_configs) r2).1 in
      let (u4, e4, run4) =
        bind_passed (load b.plugin_requests) last r3 tt (rw (run1, run2, run3) at h) in
      let run = run1 ∙ run2 ∙ run3 ∙ run4 in
      subst Goal (sym run) (last_loops b.kinds b.types (load b.plugin_requests r3).1 (rw run at h))

  module _ (tame : (group : String) → All IsTame (discovered group)) where
    first_registry-IsWellFormed :
        (use_default_types : Bool) (r : ConnectionRegistry)
        → first_registry builtins use_default_types ≡ ok r
        → IsWellFormed r
    first_registry-IsWellFormed true r e =
        let (r', e', w, normal, names) = build_default_registry_lem builtins in
        let same : r' ≡ r = ground arith in subst IsWellFormed same w
    first_registry-IsWellFormed false r e =
        let same : empty_registry ≡ r = ground arith in
        subst IsWellFormed same empty_registry-IsWellFormed

    build_registry_lem :
        {S : Type 0} (b : ExtensionBuilder S) (registry : ConnectionRegistry)
        → build_registry builtins importer discovered b ≡ ok registry
        → IsWellFormed registry × HasKinds b.kinds registry × HasTypes b.types registry
    unfolding build_registry
    build_registry_lem b registry h =
        elim (Result-cases (first_registry builtins b.use_default_types)) [
          | inr (x, e) ↦ absurd (ground arith)
          | inl (r, e) ↦
              let run = fill_registry builtins importer discovered b r in
              let w =
                (fill_registry-Keeps builtins importer discovered tame b).at r
                  (first_registry-IsWellFormed b.use_default_types r e) in
              elim (Result-cases run.0) [
                | inr (x, e1) ↦ absurd (ground arith)
                | inl (u, e1) ↦
                    let (kinds, types) = fill_registry-Has b r e1 in
                    let same : run.1 ≡ registry = ground arith in
                    subst (λ x. IsWellFormed x × HasKinds b.kinds x × HasTypes b.types x) same
                      (w, kinds, types)
              ]
        ]

    -- Where plugins keep registries well formed, a builder that builds gives a runtime on its unit of
    -- work and settings, whose service follows them, and whose registry is well formed and answers
    -- the kinds and types that were given, as they were given.
    pub build_extension_lem :
        (S : Type 0) (b : ExtensionBuilder S) (runtime : DbConnectionRuntime S)
        → build_extension builtins importer discovered b ≡ ok runtime
        → (b.uow_factory ≡ some runtime.uow_factory)
          × (runtime.max_connections ≡ build_settings b)
          × IsCurrent runtime
          × IsWellFormed runtime.registry
          × HasKinds b.kinds runtime.registry
          × HasTypes b.types runtime.registry
    unfolding build_extension new_runtime
    build_extension_lem S b runtime h = elim (Option-cases b.uow_factory) [
      | inr (u, e) ↦ elim (Result-cases (build_registry builtins importer discovered b)) [
        | inr (x, e1) ↦ absurd (ground arith)
        | inl (result, e1) ↦
            let (w, kinds, types) = build_registry_lem b result e1 in
            let same : new_runtime (build_settings b) result u b.access_policy b.ownership_resolver
                ≡ runtime =
              ground arith in
            subst
              (λ (x : DbConnectionRuntime S).
                (b.uow_factory ≡ some x.uow_factory)
                × (x.max_connections ≡ build_settings b)
                × IsCurrent x
                × IsWellFormed x.registry
                × HasKinds b.kinds x.registry
                × HasTypes b.types x.registry)
              same
              (
                e,
                refl,
                new_runtime-IsCurrent (build_settings b) result u b.access_policy
                    b.ownership_resolver,
                w,
                kinds,
                types,
              )
      ]
      | inl e ↦ absurd (ground arith)
    ]
