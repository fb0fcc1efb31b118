-- ===== src/Plugins/Loading.antt =====
-- How loading plugins (plugins.py) ends.
use db_connections.Errors.{is_db_connection_error}
use db_connections.Exec.{Exec, lift, ◌>>=◌}
use db_connections.Plugins.{
  Bootstrap, EntryPoint, load_each, load_plugin_callable, load_registry_plugins, name_of,
  run_bootstrap, select_entry_points, wrap_failure,
}
use db_connections.Prelude.{
  Bool, List, Option, String, [], ap, arith, inl, inr, map, none, refl, some, true, ◌∷◌, ◌≡◌, ◌⊎◌,
}
use db_connections.Registry.{ConnectionRegistry}
use db_connections.Result.{Result, Result-cases, err, is_err, ok}

-- no exception, or one of the library's
abbrev pub is_handled {ℓ} : {A : Type ℓ} → Result A → Bool
is_handled (ok a) = true
is_handled (err e) = is_db_connection_error e

load_plugin_callable-is_handled :
    (plugin : EntryPoint) → is_handled (load_plugin_callable plugin) ≡ true
unfolding load_plugin_callable
load_plugin_callable-is_handled plugin = elim (Result-cases plugin.load) [
  | inr (e, h) ↦ ground arith
  | inl (none, h) ↦ ground arith
  | inl (some b, h) ↦ ground arith
]

wrap-is_handled :
    (group name : String) (x : Result (Unit {0})) → is_handled (wrap_failure group name x) ≡ true
wrap-is_handled group name (ok u) = refl
wrap-is_handled group name (err e) = ground arith

bind-is_handled :
    {A B : Type 0} (m : Exec ConnectionRegistry A) (f : A → Exec ConnectionRegistry B)
    (r : ConnectionRegistry)
    → is_handled (m r).0 ≡ true
    → ((a : A) (r' : ConnectionRegistry) → is_handled (f a r').0 ≡ true)
    → is_handled ((m >>= f) r).0 ≡ true
bind-is_handled m f r h k = elim (Result-cases (m r).0) [
  | inl (a, e) ↦ rw e (k a (m r).1)
  | inr (x, e) ↦ ground arith
]

load_each-is_handled :
    (group : String) (plugins : List EntryPoint) (r : ConnectionRegistry)
    → is_handled (load_each group plugins r).0 ≡ true
unfolding load_each run_bootstrap
load_each-is_handled group [] r = refl
load_each-is_handled group (plugin ∷ plugins) r =
    bind-is_handled (lift (load_plugin_callable plugin)) _ r
      (load_plugin_callable-is_handled plugin)
      (λ bootstrap r1.
        bind-is_handled (run_bootstrap group plugin bootstrap) _ r1
          (wrap-is_handled group plugin.name (bootstrap r1).0)
          (λ u r2.
            bind-is_handled (load_each group plugins) _ r2 (load_each-is_handled group plugins r2)
              (λ loaded r3. refl)))

select-is_handled :
    (discovered : String → List EntryPoint) (group : String) (names : Option (List String))
    → is_handled (select_entry_points discovered group names) ≡ true
unfolding select_entry_points
select-is_handled discovered group none = refl
select-is_handled discovered group (some names) = ground arith

-- the names that were loaded, if loading returned
abbrev pub AreLoaded : Result (List String) → List EntryPoint → Type 0
AreLoaded x plugins = (is_err x ≡ true) ⊎ (x ≡ ok (map name_of plugins))

load_each-AreLoaded :
    (group : String) (plugins : List EntryPoint) (r : ConnectionRegistry)
    → AreLoaded (load_each group plugins r).0 plugins
unfolding load_each run_bootstrap
load_each-AreLoaded group [] r = inr refl
load_each-AreLoaded group (plugin ∷ plugins) r = elim (Result-cases (load_plugin_callable plugin)) [
  | inr (x, e) ↦ inl (rw e refl)
  | inl (bootstrap, e) ↦ elim (Result-cases (run_bootstrap group plugin bootstrap r).0) [
    | inr (x, e1) ↦ inl (ground arith)
    | inl (u, e1) ↦
        elim (load_each-AreLoaded group plugins (run_bootstrap group plugin bootstrap r).1) [
          | inl h ↦ inl (ground arith)
          | inr h ↦ inr (ground arith)
        ]
  ]
]

-- the callables of the plugins were run one after the other, from the registry `r` to `r'`
abbrev pub Ran : List EntryPoint → ConnectionRegistry → ConnectionRegistry → Type 0
Ran [] r r' = r ≡ r'
Ran (plugin ∷ plugins) r r' =
    (bootstrap : Bootstrap) × (between : ConnectionRegistry) × (plugin.load ≡ ok (some bootstrap))
    × (bootstrap r ≡ (ok tt, between))
    × Ran plugins between r'

pub load_plugin_callable-load :
    (plugin : EntryPoint) (bootstrap : Bootstrap)
    → load_plugin_callable plugin ≡ ok bootstrap
    → plugin.load ≡ ok (some bootstrap)
unfolding load_plugin_callable
load_plugin_callable-load plugin bootstrap e = elim (Result-cases plugin.load) [
  | inr (x, e1) ↦ ground arith
  | inl (none, e1) ↦ ground arith
  | inl (some b, e1) ↦ ground arith
]

run_bootstrap-returned :
    (group : String) (plugin : EntryPoint) (bootstrap : Bootstrap) (r : ConnectionRegistry)
    (u : Unit {0})
    → (run_bootstrap group plugin bootstrap r).0 ≡ ok u
    → bootstrap r ≡ (ok tt, (run_bootstrap group plugin bootstrap r).1)
unfolding run_bootstrap
run_bootstrap-returned group plugin bootstrap r u h = elim (Result-cases (bootstrap r).0) [
  | inl (v, e) ↦ ap (λ x. (x, (bootstrap r).1)) e
  | inr (x, e) ↦ ground arith
]

load_each-Ran :
    (group : String) (plugins : List EntryPoint) (r : ConnectionRegistry) (names : List String)
    → (load_each group plugins r).0 ≡ ok names
    → Ran plugins r (load_each group plugins r).1
unfolding load_each
load_each-Ran group [] r names h = refl
load_each-Ran group (plugin ∷ plugins) r names h =
    elim (Result-cases (load_plugin_callable plugin)) [
      | inr (x, e) ↦ absurd (ground arith)
      | inl (bootstrap, e) ↦ elim (Result-cases (run_bootstrap group plugin bootstrap r).0) [
        | inr (x, e1) ↦ absurd (ground arith)
        | inl (u, e1) ↦
            let between = (run_bootstrap group plugin bootstrap r).1 in
            elim (Result-cases (load_each group plugins between).0) [
              | inr (x, e2) ↦ absurd (ground arith)
              | inl (rest, e2) ↦
                  let run : (load_each group (plugin ∷ plugins) r).1
                      ≡ (load_each group plugins between).1 =
                    rw (e, e1, e2) refl in
                  (
                    bootstrap,
                    between,
                    load_plugin_callable-load plugin bootstrap e,
                    run_bootstrap-returned group plugin bootstrap r u e1,
                    rw run (load_each-Ran group plugins between rest e2),
                  )
            ]
      ]
    ]

-- Loading plugins raises nothing but exceptions of the library, whatever the entry points and
-- their callables raise; where it returns, the names are those of the selected entry points, whose
-- callables were loaded and run one after the other in their order, each returning, from the
-- registry that was given to the one that is left.
pub load_registry_plugins_lem :
    (discovered : String → List EntryPoint) (group : String) (names : Option (List String))
    (r : ConnectionRegistry)
    → let run = load_registry_plugins discovered group names r in
      (is_handled run.0 ≡ true)
      × ((is_err run.0 ≡ true)
          ⊎ ((plugins : List EntryPoint) × (select_entry_points discovered group names ≡ ok plugins)
              × Ran plugins r run.1
              × (run.0 ≡ ok (map name_of plugins))))
unfolding load_registry_plugins
load_registry_plugins_lem discovered group names r = (
  bind-is_handled (lift (select_entry_points discovered group names)) (load_each group) r
      (select-is_handled discovered group names)
      (λ plugins r'. load_each-is_handled group plugins r'),
  elim (Result-cases (select_entry_points discovered group names)) [
    | inr (x, e) ↦ inl (rw e refl)
    | inl (plugins, e) ↦ elim (load_each-AreLoaded group plugins r) [
      | inl h ↦ inl (rw e h)
      | inr h ↦ inr (plugins, e, rw e (load_each-Ran group plugins r _ h), rw e h)
    ]
  ],
)
