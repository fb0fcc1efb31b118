-- ===== src/Api/Builder/Building.antt =====
-- fastapi/builder.py: what building an extension leaves in its runtime.
use db_connections.Api.Builder.{
  ExtensionBuilder, PluginEntryPointRequest, fill_registry, load_request, merge_given,
  merge_registry, plugin_requests_from_dsl,
}
use db_connections.Dict.Keyed.{All}
use db_connections.Domain.{KindSpec, TypeSpec, to_set}
use db_connections.Dsl.Applying.{in_place}
use db_connections.Dsl.Invariant.{apply_dsl_registry-IsWellFormed}
use db_connections.Dsl.References.{Importer}
use db_connections.Exec.{for_each}
use db_connections.Exec.Keeps.{Keeps, Keeps-bind, Keeps-for_each, Keeps-pure}
use db_connections.Plugins.{
  Bootstrap, EntryPoint, entry_points_for_group, load_each, load_plugin_callable,
  load_registry_plugins, name_of, run_bootstrap, select_entry_points,
}
use db_connections.Plugins.Loading.{load_plugin_callable-load}
use db_connections.Prelude.{
  Bool, Bool-cases, List, Option, String, [], arith, elem, false, inl, inr, keep_if, none, some,
  subst, true, ◌∷◌, ◌≡◌,
}
use db_connections.Registry.{
  ConnectionRegistry, list_kinds, list_types, register_kind, register_type,
}
use db_connections.Registry.Defaults.{Builtins}
use db_connections.Registry.Invariant.{
  IsWellFormed, register_kind-IsWellFormed, register_type-IsWellFormed,
}
use db_connections.Result.{Result, Result-cases, ok}
use db_connections.Sorting.{insert_sorted, sorted, text_le}

-- what a plugin's callable does to the registry keeps it well formed
abbrev pub IsTame : EntryPoint → Type 0
IsTame plugin =
    (bootstrap : Bootstrap) → plugin.load ≡ ok (some bootstrap) → Keeps IsWellFormed bootstrap

module _ {A : Type 0} (P : A → Type 0) where
  All-keep_if : (p : A → Bool) (xs : List A) → All P xs → All P (keep_if p xs)
  All-keep_if p [] h = tt
  All-keep_if p (x ∷ xs) h = elim (Bool-cases (p x)) [
    | inl e ↦ rw e (h.0, All-keep_if p xs h.1)
    | inr e ↦ rw e (All-keep_if p xs h.1)
  ]

  All-insert_sorted :
      (key : A → String) (x : A) (ys : List A) → P x → All P ys → All P (insert_sorted key x ys)
  unfolding insert_sorted
  All-insert_sorted key x [] p h = (p, tt)
  All-insert_sorted key x (y ∷ ys) p h = elim (Bool-cases (text_le (key x) (key y))) [
    | inl e ↦ rw e (p, h)
    | inr e ↦ rw e (h.0, All-insert_sorted key x ys p h.1)
  ]

  All-sorted : (key : A → String) (xs : List A) → All P xs → All P (sorted key xs)
  unfolding sorted
  All-sorted key [] h = tt
  All-sorted key (x ∷ xs) h = All-insert_sorted key x (sorted key xs) h.0 (All-sorted key xs h.1)

-- the entry points that are selected are among those of the group
select-All :
    (P : EntryPoint → Type 0) (discovered : String → List EntryPoint) (group : String)
    (names : Option (List String)) (plugins : List EntryPoint)
    → All P (discovered group)
    → select_entry_points discovered group names ≡ ok plugins
    → All P plugins
unfolding select_entry_points entry_points_for_group
select-All P discovered group none plugins h e =
    let same : sorted name_of (discovered group) ≡ plugins = ground arith in
    subst (All P) same (All-sorted P name_of (discovered group) h)
select-All P discovered group (some names) plugins h e =
    let requested_names = to_set names in
    let filtered =
      keep_if (λ (p : EntryPoint). elem p.name requested_names)
        (sorted name_of (discovered group)) in
    let same : filtered ≡ plugins = ground arith in
    subst (All P) same (All-keep_if P _ _ (All-sorted P name_of (discovered group) h))

run_bootstrap-Keeps :
    (group : String) (plugin : EntryPoint) (bootstrap : Bootstrap)
    → Keeps IsWellFormed bootstrap
    → Keeps IsWellFormed (run_bootstrap group plugin bootstrap)
unfolding run_bootstrap
run_bootstrap-Keeps group plugin bootstrap h = record { at = λ r w. h.at r w }

load_each-Keeps :
    (group : String) (plugins : List EntryPoint)
    → All IsTame plugins
    → Keeps IsWellFormed (load_each group plugins)
unfolding load_each
load_each-Keeps group [] h = Keeps-pure IsWellFormed []
load_each-Keeps group (plugin ∷ plugins) h = record {
  at = λ r w. elim (Result-cases (load_plugin_callable plugin)) [
    | inr (x, e) ↦ rw e w
    | inl (bootstrap, e) ↦
        let tame = h.0 bootstrap (load_plugin_callable-load plugin bootstrap e) in
        rw e (
          (Keeps-bind IsWellFormed (run_bootstrap group plugin bootstrap) _
              (run_bootstrap-Keeps group plugin bootstrap tame)
              (λ u.
                Keeps-bind IsWellFormed (load_each group plugins) _
                  (load_each-Keeps group plugins h.1) (λ loaded. Keeps-pure IsWellFormed _))).at
            r w)
  ];
}

pub in_place-Keeps :
    (P : ConnectionRegistry → Type 0) (f : ConnectionRegistry → Result ConnectionRegistry)
    → ((r r' : ConnectionRegistry) → P r → f r ≡ ok r' → P r')
    → Keeps P (in_place f)
in_place-Keeps P f h = record {
  at = λ r w. elim (Result-cases (f r)) [ inl (r', e) ↦ rw e (h r r' w e) | inr (x, e) ↦ rw e w ];
}

kind_loop-Keeps :
    (overwrite : Bool) (kinds : List KindSpec)
    → Keeps IsWellFormed (for_each kinds (λ kind. in_place (register_kind kind overwrite)))
kind_loop-Keeps overwrite kinds = Keeps-for_each IsWellFormed kinds _ (λ kind.
    in_place-Keeps IsWellFormed (register_kind kind overwrite)
      (λ r r' w e. register_kind-IsWellFormed kind overwrite r r' w e))

type_loop-Keeps :
    (overwrite : Bool) (types : List TypeSpec)
    → Keeps IsWellFormed (for_each types (λ type. in_place (register_type type overwrite)))
type_loop-Keeps overwrite types = Keeps-for_each IsWellFormed types _ (λ type.
    in_place-Keeps IsWellFormed (register_type type overwrite)
      (λ r r' w e. register_type-IsWellFormed type overwrite r r' w e))

-- Merging keeps the registry well formed, whatever is merged.
merge_given-Keeps : (source : Option ConnectionRegistry) → Keeps IsWellFormed (merge_given source)
unfolding merge_registry
merge_given-Keeps none = Keeps-pure IsWellFormed tt
merge_given-Keeps (some source) =
    Keeps-bind IsWellFormed _ _ (kind_loop-Keeps true (list_kinds source))
      (λ u. type_loop-Keeps true (list_types none source))

module _ (builtins : Builtins) (importer : Importer) (discovered : String → List EntryPoint)
    (tame : (group : String) → All IsTame (discovered group)) where
  load_request-Keeps :
      (request : PluginEntryPointRequest) → Keeps IsWellFormed (load_request discovered request)
  unfolding load_registry_plugins
  load_request-Keeps request = record {
    at = λ r w. elim (Result-cases (select_entry_points discovered request.group request.names)) [
      | inr (x, e) ↦ rw e w
      | inl (plugins, e) ↦
          let selected =
            select-All IsTame discovered request.group request.names plugins (tame request.group)
              e in
          rw e (
            (Keeps-bind IsWellFormed (load_each request.group plugins) _
                (load_each-Keeps request.group plugins selected)
                (λ loaded. Keeps-pure IsWellFormed tt)).at
              r w)
    ];
  }

  pub fill_registry-Keeps :
      {S : Type 0} (b : ExtensionBuilder S)
      → Keeps IsWellFormed (fill_registry builtins importer discovered b)
  unfolding fill_registry
  fill_registry-Keeps b =
      let P = IsWellFormed in
      let loads = λ (requests : List PluginEntryPointRequest).
        Keeps-for_each P requests (load_request discovered) load_request-Keeps in
      let dsl = Keeps-for_each P b.dsl_configs _ (λ config. record {
        at = apply_dsl_registry-IsWellFormed importer builtins.no_driver_options config;
      }) in
      Keeps-bind P _ _ (merge_given-Keeps b.registry) (λ u1. Keeps-bind P _ _ dsl (λ u2.
        Keeps-bind P _ _ (loads (plugin_requests_from_dsl b.dsl_configs)) (λ u3.
          Keeps-bind P _ _ (loads b.plugin_requests) (λ u4.
            Keeps-bind P _ _ (kind_loop-Keeps false b.kinds)
              (λ u5. type_loop-Keeps false b.types)))))
