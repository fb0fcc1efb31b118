-- ===== src/Service/Steps.antt =====
-- The blocks that service calls run under a unit of work: those without a commit keep the committed
-- state, and those with one are atomic.
use db_connections.Domain.{
  ConnectionDraft, ConnectionListQuery, ConnectionPatch, ConnectionRecord, ValidatedConnection,
  default_query,
}
use db_connections.Errors.{Error, connection_limit_exceeded}
use db_connections.Exec.{Exec, ended, lift, pure, ◌>>=◌}
use db_connections.Exec.Preserves.{
  IsAtomic, IsAtomic-bind, IsAtomic-of_Preserves, IsAtomic-then_pure, Preserves, Preserves-bind,
  Preserves-lift, Preserves-pure, preserves_rules,
}
use db_connections.Int.{at_least}
use db_connections.Prelude.{
  Bool, Option, String, ap, arith, false, inl, inr, length, none, some, true, ◌∙◌, ◌≡◌, ◌⊎◌,
}
use db_connections.Result.{Result, Result-cases, err, is_err, ok, raise_if}
use db_connections.Service.Operations.{
  check_limit, check_stored_in, commit_if, create_in, delete_in, draft_to_check, get_connection,
  get_in, managed, prepare_update, update_in, use_uow,
}
use db_connections.Service.Ports.{ConnectionService, UnitOfWork}
use db_connections.Value.{Value}

-- What the service relies on of a unit of work: opening and closing it, and the repository's
-- operations, leave the committed state alone, and so does a commit that fails.
pub record IsTransactional {S V : Type 0} (persisted : S → V) (u : UnitOfWork S) : Type 0 where
  pub enter_keeps : (s : S) → persisted (u.enter s) ≡ persisted s
  pub exit_keeps : (raised : Bool) → Preserves persisted (u.exit raised)
  pub create_keeps : (d : ConnectionDraft) → Preserves persisted (u.connections.create d)
  pub list_keeps : (q : ConnectionListQuery) → Preserves persisted (u.connections.list q)
  pub get_keeps : (i : String) → Preserves persisted (u.connections.get i)
  pub replace_keeps :
      (i : String) (d : ConnectionDraft) → Preserves persisted (u.connections.replace i d)
  pub delete_keeps : (i : String) → Preserves persisted (u.connections.delete i)
  pub commit_atomic : IsAtomic persisted u.commit

module _ {S V : Type 0} (persisted : S → V) where
  -- the end of a unit of work after a block that returned, at the state `s`, raised `e` and left `s'`
  abbrev pub RaisedAtEnd : UnitOfWork S → Error → S → S → Type 0
  RaisedAtEnd u e s s' = u.exit false s ≡ (err e, s')

  -- A call that raises leaves the committed state as it was, unless it is the end of its unit of work
  -- that raised, after a block that returned: then the committed state is what that block left.
  pub record IsAtomicToEnd {A : Type 0} (u : UnitOfWork S) (m : Exec S A) : Type 0 where
    pub at :
        (s : S) (e : Error)
        → (m s).0 ≡ err e
        → (persisted (m s).1 ≡ persisted s)
          ⊎ ((s' : S) × RaisedAtEnd u e s' (m s).1 × (persisted (m s).1 ≡ persisted s'))

  pub IsAtomicToEnd-bind :
      {A B : Type 0} (u : UnitOfWork S) (m : Exec S A) (f : A → Exec S B)
      → Preserves persisted m
      → ((a : A) → IsAtomicToEnd u (f a))
      → IsAtomicToEnd u (m >>= f)
  IsAtomicToEnd-bind u m f p h = record {
    at = λ s e x. elim (Result-cases (m s).0) [
      | inr (e', x') ↦ inl (rw x' (p.at s))
      | inl (a, x') ↦ elim ((h a).at (m s).1 e (rw x' at x)) [
        | inl kept ↦ inl (rw x' (kept ∙ p.at s))
        | inr last ↦ inr (rw x' last)
      ]
    ];
  }

  ended_raised :
      {A : Type 0} (a : A) (x : Result (Unit {0})) (e : Error) → ended (ok a) x ≡ err e → x ≡ err e
  ended_raised a (ok u) e h = ground arith
  ended_raised a (err e') e h = ground arith

  -- closing the unit of work after an atomic block leaves a call that is atomic up to its end
  pub managed-IsAtomicToEnd :
      {A : Type 0} (u : UnitOfWork S) (body : UnitOfWork S → Bool → Exec S A)
      → IsTransactional persisted u
      → IsAtomic persisted (body u true)
      → IsAtomicToEnd u (managed u body)
  unfolding managed
  managed-IsAtomicToEnd u body t b = record {
    at = λ s e x.
        let (r, s') = body u true (u.enter s) in
        elim (Result-cases r) [
          | inr (e', x') ↦
              inl ((t.exit_keeps (is_err r)).at s' ∙ b.at (u.enter s) e' x' ∙ t.enter_keeps s)
          | inl (a, x') ↦
              let p = ended_raised a (u.exit false s').0 e (rw x' at x) in
              inr
                (s', rw x' (ap (λ y. (y, (u.exit false s').1)) p), (t.exit_keeps (is_err r)).at s')
        ];
  }

  pub managed-Preserves :
      {A : Type 0} (u : UnitOfWork S) (body : UnitOfWork S → Bool → Exec S A)
      → IsTransactional persisted u
      → Preserves persisted (body u true)
      → Preserves persisted (managed u body)
  unfolding managed
  managed-Preserves u body t b = record {
    at = λ s.
        let (r, s') = body u true (u.enter s) in
        (t.exit_keeps (is_err r)).at s' ∙ b.at (u.enter s) ∙ t.enter_keeps s;
  }

  pub commit_if-IsAtomic :
      {A : Type 0} (b : Bool) (u : UnitOfWork S) (a : A)
      → IsTransactional persisted u
      → IsAtomic persisted (commit_if b u a)
  unfolding commit_if
  commit_if-IsAtomic true u a t = IsAtomic-then_pure persisted u.commit a t.commit_atomic
  commit_if-IsAtomic false u a t =
      IsAtomic-of_Preserves persisted (pure a) (Preserves-pure persisted a)

  pub commit_if-Preserves :
      {A : Type 0} (u : UnitOfWork S) (a : A) → Preserves persisted (commit_if false u a)
  unfolding commit_if
  commit_if-Preserves u a = Preserves-pure persisted a

  module _ (service : ConnectionService S) (actor : Value) (u : UnitOfWork S)
      (t : IsTransactional persisted u) where
    pub check_limit-Preserves : Preserves persisted (check_limit service actor u)
    unfolding check_limit
    check_limit-Preserves =
        elim service.max_connections
          as (λ o. Preserves persisted (elim o [
            | none ↦ pure tt
            | some limit ↦ u.connections.list default_query >>= λ active.
                lift (raise_if (at_least (length active) limit) (connection_limit_exceeded limit))
          ])) [
            | none ↦ Preserves-pure persisted tt
            | some limit ↦
                Preserves-bind persisted (u.connections.list default_query)
                  (λ active.
                    lift
                      (raise_if (at_least (length active) limit) (connection_limit_exceeded limit)))
                  (t.list_keeps default_query)
                  (λ active.
                    Preserves-lift persisted
                      (raise_if (at_least (length active) limit) (connection_limit_exceeded limit)))
          ]

    pub create_in-IsAtomic :
        (d : ConnectionDraft) (v : ValidatedConnection)
        → IsAtomic persisted (create_in service actor d v u true)
    unfolding create_in
    create_in-IsAtomic d v =
        search (
          IsAtomic-bind, preserves_rules, check_limit-Preserves, t.create_keeps, commit_if-IsAtomic,
        )

    pub create_in-Preserves :
        (d : ConnectionDraft) (v : ValidatedConnection)
        → Preserves persisted (create_in service actor d v u false)
    unfolding create_in
    create_in-Preserves d v =
        search (preserves_rules, check_limit-Preserves, t.create_keeps, commit_if-Preserves)

    pub get_in-Preserves :
        (i : String) (b : Bool) → Preserves persisted (get_in service actor i u b)
    unfolding get_in
    get_in-Preserves i b = search (preserves_rules, t.get_keeps)

    pub get_connection-Preserves :
        (i : String) → Preserves persisted (get_connection service actor i (some u))
    unfolding get_connection use_uow
    get_connection-Preserves i = get_in-Preserves i false

    pub prepare_update-Preserves :
        (i : String) (p : ConnectionPatch) (r : ConnectionRecord)
        → Preserves persisted (prepare_update service actor i p r)
    unfolding prepare_update
    prepare_update-Preserves i p r = search preserves_rules depth 8

    pub update_in-IsAtomic :
        (i : String) (p : ConnectionPatch) → IsAtomic persisted (update_in service actor i p u true)
    unfolding update_in
    update_in-IsAtomic i p =
        search
          (
            IsAtomic-bind, preserves_rules, get_connection-Preserves, prepare_update-Preserves,
            t.replace_keeps, commit_if-IsAtomic,
          )
          depth 8

    pub update_in-Preserves :
        (i : String) (p : ConnectionPatch)
        → Preserves persisted (update_in service actor i p u false)
    unfolding update_in
    update_in-Preserves i p =
        search
          (
            preserves_rules, get_connection-Preserves, prepare_update-Preserves, t.replace_keeps,
            commit_if-Preserves,
          )
          depth 8

    pub delete_in-IsAtomic : (i : String) → IsAtomic persisted (delete_in service actor i u true)
    unfolding delete_in
    delete_in-IsAtomic i =
        search
          (
            IsAtomic-bind, preserves_rules, get_connection-Preserves, t.delete_keeps,
            commit_if-IsAtomic,
          )
          depth 8

    pub delete_in-Preserves : (i : String) → Preserves persisted (delete_in service actor i u false)
    unfolding delete_in
    delete_in-Preserves i =
        search (preserves_rules, get_connection-Preserves, t.delete_keeps, commit_if-Preserves)
          depth 8

    pub draft_to_check-Preserves :
        (i : String) (p : Option ConnectionPatch) (r : ConnectionRecord)
        → Preserves persisted (draft_to_check service actor i p r)
    unfolding draft_to_check
    draft_to_check-Preserves i none r = search preserves_rules
    draft_to_check-Preserves i (some p) r = search preserves_rules

    pub check_stored_in-Preserves :
        (i : String) (p : Option ConnectionPatch) (b : Bool)
        → Preserves persisted (check_stored_in service actor i p u b)
    unfolding check_stored_in
    check_stored_in-Preserves i p b =
        search (preserves_rules, get_connection-Preserves, draft_to_check-Preserves) depth 8
