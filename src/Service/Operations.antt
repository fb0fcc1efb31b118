-- ===== src/Service/Operations.antt =====
-- The operations of `ConnectionService` (application/service.py).
use db_connections.Dict.{Dict}
use db_connections.Domain.{
  ConnectionCheckResult, ConnectionDraft, ConnectionEnvelope, ConnectionListQuery, ConnectionPatch,
  ConnectionRecord, ValidatedConnection, asdict, default_query, patch_to_dict,
}
use db_connections.Errors.{connection_limit_exceeded, connection_not_found}
use db_connections.Exec.{Exec, ended, lift, pure, ◌>>=◌, ◌>>◌}
use db_connections.Int.{at_least}
use db_connections.Prelude.{
  Bool, List, Option, String, false, if◌then◌else◌, is_some, length, none, some, true,
}
use db_connections.Result.{Result, err, is_err, ok, raise_if}
use db_connections.Service.Helpers.{
  check_draft, ensure_patch_can_replace_unreadable_secrets, ensure_readable_secrets, merge,
  payload_with_extra, to_persisted_draft,
}
use db_connections.Service.Ports.{
  AccessContext, CanCreate, ConnectionService, UnitOfWork, by_context, by_draft,
}
use db_connections.Validation.{validate}
use db_connections.Value.{Value}

module _ {S A : Type 0} where
  -- `async with self._uow_factory() as managed_uow`: what `__aexit__` raises takes the place of the
  -- block's outcome
  unfoldable pub managed : UnitOfWork S → (UnitOfWork S → Bool → Exec S A) → Exec S A
  managed u body s =
      let (r, s') = body u true (u.enter s) in
      let (x, s'') = u.exit (is_err r) s' in (ended r x, s'')

  -- `_use_uow`: a unit of work that is given is neither opened, committed nor closed
  unfoldable pub use_uow :
      ConnectionService S → Option (UnitOfWork S) → (UnitOfWork S → Bool → Exec S A) → Exec S A
  use_uow service none body = managed service.uow_factory body
  use_uow service (some u) body = body u false

  -- `if should_commit: await uow.commit()`, and then the result
  unfoldable pub commit_if : Bool → UnitOfWork S → A → Exec S A
  commit_if true u a = u.commit >>= λ _. pure a
  commit_if false u a = pure a

module _ {S : Type 0} (service : ConnectionService S) (actor : Value) where
  open service use {registry, access_policy, ownership_resolver}

  abbrev pub context : String → Option String → Option (Dict Value) → AccessContext
  context operation connection_id payload = record {
    actor = actor;
    operation = operation;
    connection_id = connection_id;
    payload = payload;
  }

  -- `await can_create(ctx)` or `await can_create(ctx, resolved_payload)`
  abbrev pub run_can_create : CanCreate → AccessContext → ConnectionDraft → Result (Unit {0})
  run_can_create (by_context f) ctx draft = f ctx
  run_can_create (by_draft f) ctx draft = f ctx draft

  -- `if active >= max_connections: raise ConnectionLimitExceededError(max_connections)`
  unfoldable pub check_limit : UnitOfWork S → Exec S (Unit {0})
  check_limit u = elim service.max_connections [
    | none ↦ pure tt
    | some limit ↦ u.connections.list default_query >>= λ active.
        lift (raise_if (at_least (length active) limit) (connection_limit_exceeded limit))
  ]

  -- the block of `create` under the unit of work
  unfoldable pub create_in :
      ConnectionDraft → ValidatedConnection → UnitOfWork S → Bool → Exec S ConnectionRecord
  create_in resolved validated u should_commit = do
    check_limit u
    draft ← lift (to_persisted_draft resolved validated)
    r ← u.connections.create draft
    commit_if should_commit u r

  -- `create`
  unfoldable pub create : ConnectionDraft → Option (UnitOfWork S) → Exec S ConnectionRecord
  create payload uow = do
    resolved ← lift (
        ownership_resolver.resolve_create
          (context "create" none (some (payload_with_extra (asdict payload)))) payload)
    lift (
        run_can_create access_policy.can_create
          (context "create" none (some (payload_with_extra (asdict resolved)))) resolved)
    validated ← lift (validate registry resolved)
    use_uow service uow (create_in resolved validated)

  -- `list`
  unfoldable pub list_connections :
      ConnectionListQuery → Option (UnitOfWork S) → Exec S (List ConnectionRecord)
  list_connections query uow = do
    scoped ← lift (access_policy.scope_list (context "list" none none) query)
    use_uow service uow (λ u _. u.connections.list scoped)

  -- a record that is missing or marked deleted is not found
  unfoldable pub found_record : String → Option ConnectionRecord → Result ConnectionRecord
  found_record connection_id none = err (connection_not_found connection_id)
  found_record connection_id (some r) =
      if is_some r.deleted_at then err (connection_not_found connection_id) else ok r

  -- the block of `get`
  unfoldable pub get_in : String → UnitOfWork S → Bool → Exec S ConnectionRecord
  get_in connection_id u should_commit = do
    o ← u.connections.get connection_id
    r ← lift (found_record connection_id o)
    lift (access_policy.can_get_one (context "get" (some connection_id) none) r)
    pure r

  -- `get`
  unfoldable pub get_connection : String → Option (UnitOfWork S) → Exec S ConnectionRecord
  get_connection connection_id uow = use_uow service uow (get_in connection_id)

  -- `raise ConnectionNotFoundError` if the repository returned `None`
  abbrev pub require : String → Option ConnectionRecord → Result ConnectionRecord
  require connection_id none = err (connection_not_found connection_id)
  require connection_id (some r) = ok r

  -- what `update` persists of an existing record and a patch, or why it refuses
  unfoldable pub prepare_update :
      String → ConnectionPatch → ConnectionRecord → Exec S ConnectionDraft
  prepare_update connection_id patch existing = do
    resolved ← lift (
        ownership_resolver.resolve_patch
          (context "update" (some connection_id) (some (payload_with_extra (patch_to_dict patch))))
          existing patch)
    lift (
        access_policy.can_update
          (context "update" (some connection_id)
            (some (payload_with_extra (patch_to_dict resolved))))
          existing resolved)
    lift (ensure_patch_can_replace_unreadable_secrets existing resolved)
    merged ← lift (merge existing resolved)
    validated ← lift (validate registry merged)
    lift (to_persisted_draft merged validated)

  -- the block of `update`
  unfoldable pub update_in :
      String → ConnectionPatch → UnitOfWork S → Bool → Exec S ConnectionRecord
  update_in connection_id patch u should_commit = do
    existing ← get_connection connection_id (some u)
    draft ← prepare_update connection_id patch existing
    o ← u.connections.replace connection_id draft
    r ← lift (require connection_id o)
    commit_if should_commit u r

  -- `update`
  unfoldable pub update_connection :
      String → ConnectionPatch → Option (UnitOfWork S) → Exec S ConnectionRecord
  update_connection connection_id patch uow = use_uow service uow (update_in connection_id patch)

  -- the block of `delete`
  unfoldable pub delete_in : String → UnitOfWork S → Bool → Exec S ConnectionRecord
  delete_in connection_id u should_commit = do
    existing ← get_connection connection_id (some u)
    lift (access_policy.can_delete (context "delete" (some connection_id) none) existing)
    o ← u.connections.delete connection_id
    r ← lift (require connection_id o)
    commit_if should_commit u r

  -- `delete`
  unfoldable pub delete_connection : String → Option (UnitOfWork S) → Exec S ConnectionRecord
  delete_connection connection_id uow = use_uow service uow (delete_in connection_id)

  -- `check_payload`
  unfoldable pub check_payload : ConnectionDraft → Exec S ConnectionCheckResult
  check_payload payload = do
    resolved ← lift (
        ownership_resolver.resolve_create
          (context "check_payload" none (some (payload_with_extra (asdict payload)))) payload)
    lift (check_draft registry resolved)

  -- the draft that `check_stored` validates: the record, or the record with a patch
  unfoldable pub draft_to_check :
      String → Option ConnectionPatch → ConnectionRecord → Exec S ConnectionEnvelope
  draft_to_check connection_id none r = do lift (ensure_readable_secrets r); pure r.envelope
  draft_to_check connection_id (some patch) r = do
    resolved ← lift (
        ownership_resolver.resolve_patch
          (context "check_stored" (some connection_id)
            (some (payload_with_extra (patch_to_dict patch))))
          r patch)
    lift (ensure_patch_can_replace_unreadable_secrets r resolved)
    lift (merge r resolved)

  -- the block of `check_stored`
  unfoldable pub check_stored_in :
      String → Option ConnectionPatch → UnitOfWork S → Bool → Exec S ConnectionCheckResult
  check_stored_in connection_id patch u should_commit = do
    r ← get_connection connection_id (some u)
    draft ← draft_to_check connection_id patch r
    lift (check_draft registry draft)

  -- `check_stored`
  unfoldable pub check_stored :
      String → Option ConnectionPatch → Option (UnitOfWork S) → Exec S ConnectionCheckResult
  check_stored connection_id patch uow = use_uow service uow (check_stored_in connection_id patch)
