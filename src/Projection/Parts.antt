-- ===== src/Projection/Parts.antt =====
-- The steps of `build_any`: each returns, and with no issue each agrees with `build`.
use db_connections.Dict.{Dict}
use db_connections.Domain.{
  Checked, ConnectionRecord, Model, StoredConnectionIssue, TypeSpec, has_read_issue, invalid, valid,
}
use db_connections.DriverOptions.{build_public_driver_options}
use db_connections.DriverOptions.Public.{build_public_driver_options-error}
use db_connections.Errors.{Error, validation_failed}
use db_connections.Prelude.{
  Bool-cases, List, Option, String, [], arith, false, inl, inr, is_none, is_nonempty, none, refl,
  some, true, ◌++◌, ◌==◌, ◌||◌, ◌∷◌, ◌≡◌, ◌⊎◌,
}
use db_connections.Projection.{
  BrokenPublicConnectionView, PublicConnectionView, build_broken_view, effective_driver,
  project_properties, public_view,
}
use db_connections.Projection.ReadView.{
  all_issues, kind_issues, options_outcome, options_step, properties_step, secrets_step,
}
use db_connections.Result.{Result, err, ok}
use db_connections.Validation.{dict_of}
use db_connections.Validation.Failures.{has_none}
use db_connections.Value.{Value}

-- a reading that left an issue left the record's list of issues nonempty
nonempty_of_issue :
    (r : ConnectionRecord) (c f : String)
    → has_read_issue r c f ≡ true
    → is_nonempty r.read_issues ≡ true
unfolding has_read_issue
nonempty_of_issue r c f h = elim (Bool-cases (is_nonempty r.read_issues)) [
  | inl y ↦ y
  | inr n ↦ ground arith
]

pub is_nonempty-append {ℓ} :
    {A : Type ℓ} (xs ys : List A) → is_nonempty (xs ++ ys) ≡ (is_nonempty xs || is_nonempty ys)
is_nonempty-append [] ys = refl
is_nonempty-append (x ∷ xs) ys = refl

nil_of_append {ℓ} :
    {A : Type ℓ} (xs ys : List A)
    → is_nonempty (xs ++ ys) ≡ false
    → (xs ≡ []) × (is_nonempty ys ≡ false)
nil_of_append [] ys h = (refl, h)
nil_of_append (x ∷ xs) ys h = cc

Checked-cases : (c : Checked) → ((m : Model) × (c ≡ valid m)) ⊎ ((e : Value) × (c ≡ invalid e))
Checked-cases (valid m) = inl (m, refl)
Checked-cases (invalid e) = inr (e, refl)

-- the descriptive fields of the record are dictionaries, as the record mapper leaves them
abbrev pub IsReadable : ConnectionRecord → Type 0
IsReadable r = has_none r.envelope ≡ false

outcome-total :
    (o : Result (Option Model))
    → ((e : Error) → o ≡ err e → (m : String) × (d : Dict Value) × (e ≡ validation_failed m d))
    → (p : Option Model × List StoredConnectionIssue) × (options_outcome o ≡ ok p)
unfolding options_outcome
outcome-total (ok o) h = ((o, []), refl)
outcome-total (err (validation_failed m d)) h = (_, refl)
outcome-total (err e) h = let (m, d, same) = h e refl in cc same

some_of_not_none {ℓ} : {A : Type ℓ} (o : Option A) → is_none o ≡ false → (a : A) × (o ≡ some a)
some_of_not_none none h = cc
some_of_not_none (some a) h = (a, refl)

pub broken_view-total :
    (r : ConnectionRecord) (issues : List StoredConnectionIssue) (raw : Value)
    → IsReadable r
    → (v : BrokenPublicConnectionView) × (build_broken_view r issues raw ≡ ok v)
      × (v.issues ≡ issues)
unfolding build_broken_view dict_of
broken_view-total r issues raw h =
    let (l, el) = some_of_not_none r.labels (ground arith) in
    let (m, em) = some_of_not_none r.metadata (ground arith) in
    let (x, ex) = some_of_not_none r.extra (ground arith) in rw (el, em, ex) (_, refl, refl)

pub public_view-total :
    (r : ConnectionRecord) (o : Option Model) (m : Model)
    → IsReadable r
    → (v : PublicConnectionView) × (public_view r o m ≡ ok v)
      × (v.properties ≡ m)
      × (v.driver_options ≡ o)
unfolding public_view dict_of
public_view-total r o m h =
    let (l, el) = some_of_not_none r.labels (ground arith) in
    let (d, ed) = some_of_not_none r.metadata (ground arith) in
    let (x, ex) = some_of_not_none r.extra (ground arith) in rw (el, ed, ex) (_, refl, refl, refl)

module _ (spec : TypeSpec) (r : ConnectionRecord) where
  -- without properties to show there is an issue
  properties_missing :
      (properties_step spec r).0 ≡ none
      → (is_nonempty r.read_issues || is_nonempty (properties_step spec r).1) ≡ true
  unfolding properties_step
  properties_missing h = ground (arith, nonempty_of_issue r "invalid_properties" "properties")

  pub options_step-total :
      (o : Option Model × List StoredConnectionIssue) × (options_step spec r ≡ ok o)
  unfolding options_step
  options_step-total =
      elim (Bool-cases (has_read_issue r "invalid_driver_options" "driver_options")) [
        | inl unread ↦ ((none, []), ground arith)
        | inr read ↦ rw read (
            outcome-total
              (build_public_driver_options spec r.type (effective_driver spec r) r.driver_options)
              (build_public_driver_options-error spec r.type r.driver_options
                (effective_driver spec r)))
      ]

  no_read_issue : (c f : String) → r.read_issues ≡ [] → has_read_issue r c f ≡ false
  unfolding has_read_issue
  no_read_issue c f h = rw h

  kind_issues-nil : kind_issues spec r ≡ [] → (r.kind == spec.kind) ≡ true
  unfolding kind_issues
  kind_issues-nil h = ground arith

  properties_step-nil :
      r.read_issues ≡ []
      → (properties_step spec r).1 ≡ []
      → (m : Model) × ((properties_step spec r).0 ≡ some m) × (project_properties spec r ≡ valid m)
  unfolding properties_step
  properties_step-nil u h = elim (Checked-cases (project_properties spec r)) [
    | inl (m, good) ↦ (m, ground (arith, no_read_issue "invalid_properties" "properties" u), good)
    | inr (e, bad) ↦ ground (arith, no_read_issue "invalid_properties" "properties" u)
  ]

  options_step-nil :
      (o : Option Model × List StoredConnectionIssue)
      → r.read_issues ≡ []
      → options_step spec r ≡ ok o
      → o.1 ≡ []
      → build_public_driver_options spec r.type (effective_driver spec r) r.driver_options ≡ ok o.0
  unfolding options_step options_outcome
  options_step-nil o u e h =
      ground (arith, no_read_issue "invalid_driver_options" "driver_options" u)

  -- with no issue at all the record was read in full, and each part of the view is as in `build`
  pub no_issue :
      (o : Option Model × List StoredConnectionIssue)
      → options_step spec r ≡ ok o
      → is_nonempty (all_issues spec r o.1) ≡ false
      → (r.read_issues ≡ [])
        × ((r.kind == spec.kind) ≡ true)
        × ((m : Model) × ((properties_step spec r).0 ≡ some m)
            × (project_properties spec r ≡ valid m))
        × (build_public_driver_options spec r.type (effective_driver spec r) r.driver_options
            ≡ ok o.0)
  unfolding all_issues
  no_issue o e n =
      let (unread, rest) = nil_of_append r.read_issues _ n in
      let (kinds, rest') = nil_of_append (kind_issues spec r) _ rest in
      let (properties, rest'') = nil_of_append (properties_step spec r).1 _ rest' in
      let (options, secrets) = nil_of_append o.1 (secrets_step spec r).0 rest'' in
      (
        unread,
        kind_issues-nil kinds,
        properties_step-nil unread properties,
        options_step-nil o unread e options,
      )

  pub all_issues-prefix :
      (is : List StoredConnectionIssue)
      → (found : List StoredConnectionIssue) × (all_issues spec r is ≡ r.read_issues ++ found)
  unfolding all_issues
  all_issues-prefix is = (_, refl)
