-- ===== src/Compat/Routes/Ownership.antt =====
-- compat/routes.py: whose rows a request reads and changes.
-- a search finds nothing where no item passes
use db_connections.Compat.Manager.{ConnectionManager}
use db_connections.Compat.Orm.{IsReading, OrmSession}
use db_connections.Compat.Routes.{
  db_connection_not_found, delete_connection_route, filter_clauses, find_own, found_or,
  get_connection_route, get_db_connections, list_connections_route, type_clauses,
  update_connection_route, within_limit,
}
use db_connections.Compat.RowModel.{RoutePayload, RowModel, limited, slice, take_rows}
use db_connections.Compat.Statements.{
  Clause, ExtensionConfig, TableRow, User, alive, key_clauses, meets, meets-append, owner_clauses,
  scoped, scoped_last,
}
use db_connections.Dict.{Dict}
use db_connections.Int.{negsuc, pos, ℤ}
use db_connections.Prelude.{
  Bool, List, Option, Option-cases, String, [], all, any, ap, arith, false, find_first,
  find_first_sound, inl, inr, keep_if, none, refl, some, subst, suc, true, zero, ℕ, ◌++◌, ◌∷◌, ◌≡◌,
}
use db_connections.Result.{Result-cases, err, is_err, ok}
use db_connections.Value.{Value}

find_first-none :
    {A : Type 0} (p : A → Bool) (xs : List A) → any p xs ≡ false → find_first p xs ≡ none
find_first-none p [] h = refl
find_first-none p (x ∷ xs) h = ground (arith, find_first-none p xs)

all-keep_if : {A : Type 0} (p : A → Bool) (xs : List A) → all p (keep_if p xs) ≡ true
all-keep_if p [] = refl
all-keep_if p (x ∷ xs) = ground (arith, all-keep_if p xs)

-- a part of the rows has what all of them have
all-take_rows :
    (p : TableRow → Bool) (n : ℕ) (rows : List TableRow)
    → all p rows ≡ true
    → all p (take_rows n rows) ≡ true
unfolding take_rows
all-take_rows p zero rows h = refl
all-take_rows p (suc n) [] h = refl
all-take_rows p (suc n) (r ∷ rows) h = ground (arith, all-take_rows p n rows)

all-slice :
    (p : TableRow → Bool) (n : ℤ) (rows : List TableRow)
    → all p rows ≡ true
    → all p (slice n rows) ≡ true
unfolding slice
all-slice p (pos n) rows h = all-take_rows p n rows h
all-slice p (negsuc n) rows h = all-take_rows p _ rows h

-- rows that meet more clauses are the user's
own_of_all :
    (middle owner : List Clause) (rows : List TableRow)
    → all (meets ((alive ∷ middle) ++ owner)) rows ≡ true
    → all (meets (alive ∷ owner)) rows ≡ true
own_of_all middle owner [] h = refl
own_of_all middle owner (r ∷ rows) h =
    ground (arith, meets-append middle owner r, own_of_all middle owner rows)

all-limited :
    (p : TableRow → Bool) (limit : Option ℤ) (rows : List TableRow)
    → all p rows ≡ true
    → all p (limited limit rows) ≡ true
unfolding limited
all-limited p none rows h = h
all-limited p (some n) rows h = all-slice p n rows h

module _ {S : Type 0} (session : OrmSession S) (config : ExtensionConfig) (model : RowModel)
    (rows : S → List TableRow) (reading : IsReading rows session) where
  -- reading the rows leaves the state
  get_db_connections_silent :
      (user : User) (t : Option String) (filters : Dict Value) (s : S)
      → (get_db_connections session config model user t filters s).1 ≡ s
  unfolding get_db_connections
  get_db_connections_silent user t filters s = elim (Result-cases (scoped_last config user)) [
    | inl (owner, e) ↦ rw e (ap (λ x. x.1) (reading.all_meet _ s))
    | inr (x, e) ↦ rw e refl
  ]

  within_limit_silent :
      (user : User) (manager : ConnectionManager) (s : S)
      → (within_limit session config model user (manager, s)).1.1 ≡ s
  unfolding within_limit
  within_limit_silent user manager s =
      let silent = get_db_connections_silent user none [] s in
      elim (Result-cases (get_db_connections session config model user none [] s).0) [
        | inl (found, e) ↦ ground arith
        | inr (x, e) ↦ ground arith
      ]

  module _ (user : User) (owner : List Clause) (auth : config.use_auth ≡ true)
      (filtered : config.disable_pk_filtration user ≡ ok false)
      (owns : owner_clauses config.db_connection_to_user_fks_mapping user ≡ ok owner) where
    scoped_owner : scoped config user ≡ ok owner
    unfolding scoped
    scoped_owner = rw (auth, filtered) owns

    scoped_last_owner : scoped_last config user ≡ ok owner
    unfolding scoped_last
    scoped_last_owner = rw (filtered, auth) owns

    -- the rows that a request may reach under its keys
    abbrev own_clauses : Dict Value → List Clause
    own_clauses kwargs = (alive ∷ key_clauses config.db_connection_pks kwargs) ++ owner

    none_found :
        (kwargs : Dict Value) (clauses : List Clause) (s : S)
        → any (meets clauses) (rows s) ≡ false
        → found_or session config model kwargs clauses s
          ≡ (err (db_connection_not_found model.show kwargs), s)
    unfolding found_or
    none_found kwargs clauses s absent_ =
        rw (reading.first_meets clauses s)
          (rw (find_first-none (meets clauses) (rows s) absent_) refl)

    find_own_none :
        (kwargs : Dict Value) (s : S)
        → any (meets (own_clauses kwargs)) (rows s) ≡ false
        → find_own session config model user kwargs s
          ≡ (err (db_connection_not_found model.show kwargs), s)
    unfolding find_own
    find_own_none kwargs s absent_ =
        rw scoped_owner (none_found kwargs (own_clauses kwargs) s absent_)

    update_none :
        (kwargs : Dict Value) (payload : RoutePayload) (manager : ConnectionManager) (s : S)
        → any (meets (own_clauses kwargs)) (rows s) ≡ false
        → let run = update_connection_route session config model user kwargs payload (manager, s) in
          (is_err run.0 ≡ true) × (run.1.1 ≡ s)
    unfolding update_connection_route
    update_none kwargs payload manager s absent_ =
        let silent = within_limit_silent user manager s in
        let found = find_own_none kwargs s absent_ in
        elim (Result-cases (within_limit session config model user (manager, s)).0) [
          | inr (x, e) ↦ rw e (refl, silent)
          | inl (false, e) ↦ rw e (refl, silent)
          | inl (true, e) ↦ rw e (rw silent (rw found (refl, refl)))
        ]

    -- Where users are told apart, a request of a user for a row that is not among the rows of that
    -- user, by its keys and not deleted, finds nothing: reading and deleting it answer that there is
    -- no such connection, an update is refused as well, and all three leave the session as it was.
    pub strangers_refused :
        (kwargs : Dict Value) (payload : RoutePayload) (manager : ConnectionManager) (s : S)
        → any (meets (own_clauses kwargs)) (rows s) ≡ false
        → let missing = db_connection_not_found model.show kwargs in
          let run = update_connection_route session config model user kwargs payload (manager, s) in
          (get_connection_route session config model user kwargs s ≡ (err missing, s))
          × (delete_connection_route session config model user kwargs s ≡ (err missing, s))
          × (is_err run.0 ≡ true)
          × (run.1.1 ≡ s)
    unfolding get_connection_route delete_connection_route
    strangers_refused kwargs payload manager s absent_ =
        let (refused, kept) = update_none kwargs payload manager s absent_ in
        (
          rw scoped_last_owner (none_found kwargs (own_clauses kwargs) s absent_),
          rw (find_own_none kwargs s absent_) refl,
          refused,
          kept,
        )

    found_meets :
        (kwargs : Dict Value) (clauses : List Clause) (s : S) (r : TableRow)
        → (found_or session config model kwargs clauses s).0 ≡ ok r
        → meets clauses r ≡ true
    unfolding found_or
    found_meets kwargs clauses s r h = elim (Option-cases (find_first (meets clauses) (rows s))) [
      | inl e ↦
          let x : (found_or session config model kwargs clauses s).0
              ≡ err (db_connection_not_found model.show kwargs) =
            rw (reading.first_meets clauses s) (rw e refl) in
          cc
      | inr (a, e) ↦
          let x : (found_or session config model kwargs clauses s).0 ≡ ok a =
            rw (reading.first_meets clauses s) (rw e refl) in
          let same : a ≡ r = cc in
          subst (λ y. meets clauses y ≡ true) same (find_first_sound (meets clauses) (rows s) a e)
    ]

    -- what a listing asks the session for
    abbrev listing_clauses : Option String → Dict Value → List Clause
    listing_clauses t filters =
        (alive
          ∷ (type_clauses session config model t ++ filter_clauses session config model filters))
        ++ owner

    own_query :
        (t : Option String) (filters : Dict Value) (s : S)
        → get_db_connections session config model user t filters s
          ≡ (ok (keep_if (meets (listing_clauses t filters)) (rows s)), s)
    unfolding get_db_connections
    own_query t filters s = rw scoped_last_owner (reading.all_meet (listing_clauses t filters) s)

    listed_own :
        (t : Option String) (filters : Dict Value) (manager : ConnectionManager) (s : S)
        (listed : List TableRow)
        → (list_connections_route session config model user t filters (manager, s)).0 ≡ ok listed
        → all (meets (alive ∷ owner)) listed ≡ true
    unfolding list_connections_route
    listed_own t filters manager s listed many =
        let middle =
          type_clauses session config model t ++ filter_clauses session config model filters in
        let clauses = listing_clauses t filters in
        let kept = keep_if (meets clauses) (rows s) in
        let run : get_db_connections session config model user t filters s ≡ (ok kept, s) =
          own_query t filters s in
        let answer : (list_connections_route session config model user t filters (manager, s)).0
            ≡ ok (limited manager.max_connections kept) =
          rw (list_connections_route, run) refl in
        let same : limited manager.max_connections kept ≡ listed = cc in
        let own = own_of_all middle owner kept (all-keep_if (meets clauses) (rows s)) in
        subst (λ x. all (meets (alive ∷ owner)) x ≡ true) same
          (all-limited (meets (alive ∷ owner)) manager.max_connections kept own)

    -- Where users are told apart, what the route that gets a connection answers has the keys that
    -- were asked for, is not deleted, and is the user's, as are all the rows of a listing, whatever
    -- its filters and the limit are.
    pub shown_are_own :
        (kwargs : Dict Value) (t : Option String) (filters : Dict Value)
        (manager : ConnectionManager) (s : S) (r : TableRow) (listed : List TableRow)
        → (get_connection_route session config model user kwargs s).0 ≡ ok r
        → (list_connections_route session config model user t filters (manager, s)).0 ≡ ok listed
        → (meets (own_clauses kwargs) r ≡ true) × (all (meets (alive ∷ owner)) listed ≡ true)
    unfolding get_connection_route
    shown_are_own kwargs t filters manager s r listed one many = (
      found_meets kwargs (own_clauses kwargs) s r (rw scoped_last_owner at one),
      listed_own t filters manager s listed many,
    )
