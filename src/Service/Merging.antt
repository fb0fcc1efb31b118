-- ===== src/Service/Merging.antt =====
-- `_merge`: what a patch makes of a stored connection.
use db_connections.Dict.{Dict, get}
use db_connections.Dict.Keyed.{or_get}
use db_connections.Domain.{
  ConnectionDraft, ConnectionPatch, ConnectionRecord, PatchValue, build_connection_patch_fields,
  entry_if_set, is_patch_unset, named_if_set, of_optional_dict, of_payload, patch_fields_set,
  patch_to_dict, set, unset,
}
use db_connections.Prelude.{
  String, [], any-append, arith, elem, false, inl, inr, none, not, refl, true, ◌&&◌, ◌++◌, ◌==◌,
  ◌||◌, ◌∙◌, ◌∷◌, ◌≡◌, ◌⊎◌,
}
use db_connections.Result.{ok}
use db_connections.Service.Helpers.{merge, merged_draft, value_or}
use db_connections.Value.{Value, of_text}

-- what the source's `patch.f if "f" in patch_fields else existing.f` says of a merged field
abbrev pub Picks {ℓ} : {A : Type ℓ} → String → ConnectionPatch → PatchValue A → A → A → Type ℓ
Picks {A} f patch v old new =
    ((elem f (patch_fields_set patch) ≡ true) × (v ≡ set new))
    ⊎ ((elem f (patch_fields_set patch) ≡ false) × (new ≡ old))

-- every field of a merged draft is the patch's where the patch sets it, and else the stored one
pub record IsMerged (existing : ConnectionRecord) (patch : ConnectionPatch) (d : ConnectionDraft)
    : Type 0 where
  pub same_kind : d.kind ≡ existing.kind
  pub same_type : d.type ≡ existing.type
  pub name : Picks "name" patch patch.name existing.name d.name
  pub driver : Picks "driver" patch patch.driver existing.driver d.driver
  pub driver_options :
      Picks "driver_options" patch patch.driver_options existing.driver_options d.driver_options
  pub properties : Picks "properties" patch patch.properties existing.properties d.properties
  pub secrets : Picks "secrets" patch patch.secrets existing.secrets d.secrets
  pub labels : Picks "labels" patch patch.labels existing.labels d.labels
  pub metadata : Picks "metadata" patch patch.metadata existing.metadata d.metadata
  pub extra : Picks "extra" patch patch.extra existing.extra d.extra

get-append : (k : String) (d e : Dict Value) → get k (d ++ e) ≡ or_get (get k d) (get k e)
get-append k [] e = refl
get-append k ((j, v) ∷ d) e = ground (arith, get-append k d e)

get-entry_if_set {ℓ} :
    {A : Type ℓ} (k n : String) (f : A → Value) (v : PatchValue A)
    → (n == k) ≡ false
    → get k (entry_if_set n f v) ≡ none
get-entry_if_set k n f unset h = refl
get-entry_if_set k n f (set a) h = rw h

-- a patch has no entry under a name that is none of its fields'
get-patch_to_dict :
    (k : String) (p : ConnectionPatch)
    → elem k build_connection_patch_fields ≡ false
    → get k (patch_to_dict p) ≡ none
unfolding patch_to_dict build_connection_patch_fields
get-patch_to_dict k p h = simp (
  get-append,
  get-entry_if_set k "name" of_text p.name (ground arith),
  get-entry_if_set k "driver" of_text p.driver (ground arith),
  get-entry_if_set k "driver_options" of_payload p.driver_options (ground arith),
  get-entry_if_set k "properties" of_optional_dict p.properties (ground arith),
  get-entry_if_set k "secrets" of_optional_dict p.secrets (ground arith),
  get-entry_if_set k "labels" of_optional_dict p.labels (ground arith),
  get-entry_if_set k "metadata" of_optional_dict p.metadata (ground arith),
  get-entry_if_set k "extra" of_optional_dict p.extra (ground arith),
)

elem-named_if_set {ℓ} :
    {A : Type ℓ} (k n : String) (v : PatchValue A)
    → elem k (named_if_set n v) ≡ (not (is_patch_unset v) && n == k)
elem-named_if_set k n unset = refl
elem-named_if_set k n (set a) = ground arith

-- the set fields of a patch, each under its own name
fields_set :
    (p : ConnectionPatch) (k : String)
    → elem k (patch_fields_set p) ≡ (
        (not (is_patch_unset p.name) && "name" == k)
        || ((not (is_patch_unset p.driver) && "driver" == k)
            || ((not (is_patch_unset p.driver_options) && "driver_options" == k)
                || ((not (is_patch_unset p.properties) && "properties" == k)
                    || ((not (is_patch_unset p.secrets) && "secrets" == k)
                        || ((not (is_patch_unset p.labels) && "labels" == k)
                            || ((not (is_patch_unset p.metadata) && "metadata" == k)
                                || (not (is_patch_unset p.extra) && "extra" == k))))))))
unfolding patch_fields_set
fields_set p k = simp (
  any-append,
  elem-named_if_set k "name" p.name,
  elem-named_if_set k "driver" p.driver,
  elem-named_if_set k "driver_options" p.driver_options,
  elem-named_if_set k "properties" p.properties,
  elem-named_if_set k "secrets" p.secrets,
  elem-named_if_set k "labels" p.labels,
  elem-named_if_set k "metadata" p.metadata,
  elem-named_if_set k "extra" p.extra,
)

picks {ℓ} :
    {A : Type ℓ} (f : String) (p : ConnectionPatch) (v : PatchValue A) (old : A)
    → elem f (patch_fields_set p) ≡ not (is_patch_unset v)
    → Picks f p v old (value_or v old)
picks f p unset old h = inr (h, refl)
picks f p (set a) old h = inl (h, refl)

module _ (p : ConnectionPatch) where
  pub secrets_set : elem "secrets" (patch_fields_set p) ≡ not (is_patch_unset p.secrets)
  secrets_set = fields_set p "secrets" ∙ ground arith

  merged_draft-IsMerged : (r : ConnectionRecord) → IsMerged r p (merged_draft r p)
  merged_draft-IsMerged r = record {
    same_kind = refl;
    same_type = refl;
    name = picks "name" p p.name r.name (fields_set p "name" ∙ ground arith);
    driver = picks "driver" p p.driver r.driver (fields_set p "driver" ∙ ground arith);
    driver_options =
        picks "driver_options" p p.driver_options r.driver_options
          (fields_set p "driver_options" ∙ ground arith);
    properties =
        picks "properties" p p.properties r.properties (fields_set p "properties" ∙ ground arith);
    secrets = picks "secrets" p p.secrets r.secrets secrets_set;
    labels = picks "labels" p p.labels r.labels (fields_set p "labels" ∙ ground arith);
    metadata = picks "metadata" p p.metadata r.metadata (fields_set p "metadata" ∙ ground arith);
    extra = picks "extra" p p.extra r.extra (fields_set p "extra" ∙ ground arith);
  }

-- Merging never raises: the result keeps the stored kind and type, and every other field is the
-- patch's where the patch sets it, `None` included, and the stored one where it does not.
pub merge_lem :
    (existing : ConnectionRecord) (patch : ConnectionPatch)
    → (d : ConnectionDraft) × (merge existing patch ≡ ok d) × IsMerged existing patch d
unfolding merge build_connection_patch_fields
merge_lem existing patch = (
  merged_draft existing patch,
  rw (get-patch_to_dict "kind" patch refl, get-patch_to_dict "type" patch refl),
  merged_draft-IsMerged patch existing,
)
