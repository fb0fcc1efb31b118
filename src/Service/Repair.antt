-- ===== src/Service/Repair.antt =====
-- A record whose secrets could not be decrypted must be given new ones before it is used.
use db_connections.Domain.{
  ConnectionPatch, ConnectionRecord, has_read_issue, is_patch_unset, patch_to_dict,
}
use db_connections.Prelude.{
  Bool-cases, String, arith, false, inl, inr, none, refl, some, true, ◌≡◌, ◌⊎◌,
}
use db_connections.Registry.{ConnectionRegistry}
use db_connections.Result.{Result, Result-cases, err, is_err, ok}
use db_connections.Service.Helpers.{
  client_of_record, ensure_patch_can_replace_unreadable_secrets, ensure_readable_secrets,
  payload_with_extra, repair_required_error,
}
use db_connections.Service.Merging.{secrets_set}
use db_connections.Service.Operations.{context, draft_to_check, prepare_update}
use db_connections.Service.Ports.{ConnectionService}
use db_connections.Value.{Value}

module _ (registry : ConnectionRegistry) (r : ConnectionRecord)
    (unreadable : has_read_issue r "unreadable_secrets" "secrets" ≡ true) where
  -- no client and no check of such a record
  no_client : client_of_record registry r ≡ err repair_required_error
  unfolding client_of_record ensure_readable_secrets
  no_client = rw unreadable

module _ {S : Type 0} (service : ConnectionService S) (actor : Value) (i : String)
    (r : ConnectionRecord) (s : S)
    (unreadable : has_read_issue r "unreadable_secrets" "secrets" ≡ true) where
  no_check : draft_to_check service actor i none r s ≡ (err repair_required_error, s)
  unfolding draft_to_check ensure_readable_secrets
  no_check = rw unreadable

-- a run that applies a patch returns only if the patch that the ownership resolver made of it sets
-- the secrets
abbrev pub NeedsSecrets : {S A : Type 0} → Result ConnectionPatch → Result A × S → Type 0
NeedsSecrets resolution run =
    (is_err run.0 ≡ true)
    ⊎ ((resolved : ConnectionPatch) × (resolution ≡ ok resolved)
        × (is_patch_unset resolved.secrets ≡ false))

guard_passed :
    (r : ConnectionRecord) (patch : ConnectionPatch) (u : Unit {0})
    → has_read_issue r "unreadable_secrets" "secrets" ≡ true
    → ensure_patch_can_replace_unreadable_secrets r patch ≡ ok u
    → is_patch_unset patch.secrets ≡ false
unfolding ensure_patch_can_replace_unreadable_secrets
guard_passed r patch u h e =
    let at_secrets = secrets_set patch in
    elim (Bool-cases (is_patch_unset patch.secrets)) [
      | inl x ↦ absurd (let raised = (rw (h, at_secrets, x) at e) in ground arith)
      | inr x ↦ x
    ]

module _ {S : Type 0} (service : ConnectionService S) (actor : Value) (i : String)
    (r : ConnectionRecord) (s : S) (patch : ConnectionPatch)
    (unreadable : has_read_issue r "unreadable_secrets" "secrets" ≡ true) where
  -- what the ownership resolver makes of the patch for an operation
  abbrev pub resolution : String → Result ConnectionPatch
  resolution operation =
      service.ownership_resolver.resolve_patch
        (context service actor operation (some i) (some (payload_with_extra (patch_to_dict patch))))
        r patch

  update_needs : NeedsSecrets (resolution "update") (prepare_update service actor i patch r s)
  unfolding prepare_update
  update_needs = elim (Result-cases (resolution "update")) [
    | inr (x, e) ↦ inl (rw e refl)
    | inl (resolved, e) ↦
        elim (Result-cases (ensure_patch_can_replace_unreadable_secrets r resolved)) [
          | inl (u, e1) ↦ inr (resolved, e, guard_passed r resolved u unreadable e1)
          | inr (x, e1) ↦
              inl
                (elim (Result-cases (
                  service.access_policy.can_update
                    (context service actor "update" (some i)
                      (some (payload_with_extra (patch_to_dict resolved))))
                    r resolved)) [
                      | inr (x', e2) ↦ rw (e, e2) refl
                      | inl (v, e2) ↦ rw (e, e2, e1) refl
                    ])
        ]
  ]

  check_needs :
      NeedsSecrets (resolution "check_stored") (draft_to_check service actor i (some patch) r s)
  unfolding draft_to_check
  check_needs = elim (Result-cases (resolution "check_stored")) [
    | inr (x, e) ↦ inl (rw e refl)
    | inl (resolved, e) ↦
        elim (Result-cases (ensure_patch_can_replace_unreadable_secrets r resolved)) [
          | inl (u, e1) ↦ inr (resolved, e, guard_passed r resolved u unreadable e1)
          | inr (x, e1) ↦ inl (rw (e, e1) refl)
        ]
  ]

-- A record whose secrets could not be decrypted gives no client and is not checked as it stands: both
-- raise the error that asks for new secrets. Updating it, and checking it with a patch, gets to a
-- draft only if the patch, as the ownership resolver made it, sets the secrets.
pub unreadable_secrets :
    {S : Type 0} (service : ConnectionService S) (actor : Value) (i : String) (r : ConnectionRecord)
    (s : S) (patch : ConnectionPatch)
    → has_read_issue r "unreadable_secrets" "secrets" ≡ true
    → let resolution = λ (operation : String).
      service.ownership_resolver.resolve_patch
        (context service actor operation (some i) (some (payload_with_extra (patch_to_dict patch))))
        r
        patch in
      (client_of_record service.registry r ≡ err repair_required_error)
      × (draft_to_check service actor i none r s ≡ (err repair_required_error, s))
      × NeedsSecrets (resolution "update") (prepare_update service actor i patch r s)
      × NeedsSecrets (resolution "check_stored") (draft_to_check service actor i (some patch) r s)
unreadable_secrets service actor i r s patch h = (
  no_client service.registry r h,
  no_check service actor i r s h,
  update_needs service actor i r s patch h,
  check_needs service actor i r s patch h,
)
