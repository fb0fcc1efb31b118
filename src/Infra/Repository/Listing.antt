-- ===== src/Infra/Repository/Listing.antt =====
-- What `list` of infra/repositories.py returns.
use db_connections.Dict.{Dict, get}
use db_connections.Domain.{ConnectionListQuery}
use db_connections.Infra.Encryption.{EncryptionProvider}
use db_connections.Infra.Mapper.{to_record}
use db_connections.Infra.OptionsColumn.{Imports}
use db_connections.Infra.Repository.{list_records, matches_filters, where_clauses}
use db_connections.Infra.Rows.{Row}
use db_connections.Infra.Session.{IsSelecting, Session}
use db_connections.Prelude.{
  Bool, Bool-cases, List, Option, String, [], all, ap, arith, false, get_or, inl, inr, is_none,
  keep_if, map, none, refl, some, true, ◌&&◌, ◌==◌, ◌||◌, ◌∷◌, ◌≡◌,
}
use db_connections.Result.{ok}
use db_connections.Value.{Value, null, value_eq}

-- what a filter asks of a dictionary: the value under the key, where a missing key reads as `None`
abbrev pub is_entry : Option Value → Value → Bool
is_entry none w = value_eq null w
is_entry (some v) w = value_eq v w

abbrev pub has_entry : Dict Value → String × Value → Bool
has_entry d kv = is_entry (get kv.0 d) kv.1

entry_matched : (o : Option Value) (w : Value) → value_eq (get_or o null) w ≡ is_entry o w
entry_matched none w = refl
entry_matched (some v) w = refl

-- a text that a query may ask for
abbrev pub is_wanted : Option String → String → Bool
is_wanted none s = true
is_wanted (some t) s = s == t

entries_matched :
    (d filters : Dict Value)
    → all (λ kv. value_eq (get_or (get kv.0 d) null) kv.1) filters ≡ all (has_entry d) filters
entries_matched d [] = refl
entries_matched d (kv ∷ filters) =
    rw (entry_matched (get kv.0 d) kv.1, entries_matched d filters) refl

-- filtering before and after a map is filtering once
keep_if-map :
    {A B : Type 0} (g : A → B) (p : A → Bool) (f : B → Bool) (h : A → Bool)
    → ((x : A) → h x ≡ (p x && f (g x)))
    → (xs : List A) → keep_if f (map g (keep_if p xs)) ≡ map g (keep_if h xs)
keep_if-map g p f h e [] = refl
keep_if-map g p f h e (x ∷ xs) = elim (Bool-cases (p x)) [
  | inr np ↦ rw (np, rw np at (e x), keep_if-map g p f h e xs) refl
  | inl yp ↦ elim (Bool-cases (f (g x))) [
    | inl yf ↦ rw (yp, yf, rw (yp, yf) at (e x), keep_if-map g p f h e xs) refl
    | inr nf ↦ rw (yp, nf, rw (yp, nf) at (e x), keep_if-map g p f h e xs) refl
  ]
]

regrouped :
    (a b c d e f g : Bool)
    → (a && b && c && d && e && f && g) ≡ ((a && (b && (c && d))) && (e && (f && g)))
regrouped true b c d e f g = ground arith
regrouped false b c d e f g = refl

module _ {S : Type 0} (session : Session S) (provider : EncryptionProvider) (imports : Imports)
    (query : ConnectionListQuery) where
  -- the rows that a query asks for
  abbrev pub is_asked : Row → Bool
  is_asked row =
      let r = to_record provider imports row in
      (query.include_deleted || is_none row.deleted_at)
      && is_wanted query.kind row.kind
      && is_wanted query.type row.type
      && (elim query.name [ none ↦ true | some n ↦ session.name_contains n row.name ])
      && all (has_entry (get_or r.labels [])) query.label_filters
      && all (has_entry (get_or r.metadata [])) query.metadata_filters
      && all (has_entry (get_or r.extra [])) query.extra_filters

  asked_parts :
      (row : Row)
      → is_asked row ≡ (
          where_clauses session provider imports query row
          && matches_filters (to_record provider imports row) query)
  unfolding where_clauses matches_filters
  asked_parts row =
      let r = to_record provider imports row in
      let a = entries_matched (get_or r.labels []) query.label_filters in
      let b = entries_matched (get_or r.metadata []) query.metadata_filters in
      let c = entries_matched (get_or r.extra []) query.extra_filters in
      rw (a, b, c)
        (regrouped (query.include_deleted || is_none row.deleted_at) (is_wanted query.kind row.kind)
          (is_wanted query.type row.type) _ _ _ _)

  -- Listing returns, without an exception and without a change of the store, the records of exactly
  -- the rows that the query asks for, in the order of the table: those of its kind and type, whose
  -- name contains its text, that are not marked deleted unless it asks for those too, and whose
  -- labels, metadata and extra fields have every entry of its filters, where a missing key reads as
  -- null.
  pub list_records_lem :
      (table : S → List Row) (s : S)
      → IsSelecting table session
      → list_records session provider imports query s
        ≡ (ok (map (to_record provider imports) (keep_if is_asked (table s))), s)
  unfolding list_records
  list_records_lem table s selects =
      rw (selects.select-where (where_clauses session provider imports query) s) (
        ap (λ rs. (ok rs, s))
          (keep_if-map (to_record provider imports) (where_clauses session provider imports query)
            (λ r. matches_filters r query) is_asked asked_parts (table s)))
