-- ===== src/Domain/Patch.antt =====
-- domain/entities/patch.py: a patch whose fields may be unset, which is not the same as `None`.
use db_connections.Dict.{Dict}
use db_connections.Domain.Entities.{ConnectionDraft, Payload, absent, instance_of, mapping, plain}
use db_connections.Prelude.{
  Bool, List, Option, String, [], false, if◌then◌else◌, none, some, true, ◌++◌, ◌∷◌,
}
use db_connections.Value.{Value, null, of_dict, of_text, str}

pub data PatchValue {ℓ} (A : Type ℓ) : Type ℓ where
  unset : PatchValue A
  set : A → PatchValue A

pub record ConnectionPatch : Type 0 where
  pub name : PatchValue (Option String)
  pub driver : PatchValue (Option String)
  pub driver_options : PatchValue Payload
  pub properties : PatchValue (Option (Dict Value))
  pub secrets : PatchValue (Option (Dict Value))
  pub labels : PatchValue (Option (Dict Value))
  pub metadata : PatchValue (Option (Dict Value))
  pub extra : PatchValue (Option (Dict Value))

-- `ConnectionPatch()`
abbrev pub empty_patch : ConnectionPatch
empty_patch = record {
  name = unset;
  driver = unset;
  driver_options = unset;
  properties = unset;
  secrets = unset;
  labels = unset;
  metadata = unset;
  extra = unset;
}

abbrev pub is_patch_unset {ℓ} : {A : Type ℓ} → PatchValue A → Bool
is_patch_unset unset = true
is_patch_unset (set a) = false

-- the field's name, if the patch sets it
abbrev pub named_if_set {ℓ} : {A : Type ℓ} → String → PatchValue A → List String
named_if_set n v = if is_patch_unset v then [] else n ∷ []

unfoldable pub patch_fields_set : ConnectionPatch → List String
patch_fields_set p =
    named_if_set "name" p.name
    ++ (named_if_set "driver" p.driver
        ++ (named_if_set "driver_options" p.driver_options
            ++ (named_if_set "properties" p.properties
                ++ (named_if_set "secrets" p.secrets
                    ++ (named_if_set "labels" p.labels
                        ++ (named_if_set "metadata" p.metadata ++ named_if_set "extra" p.extra))))))

-- the field's entry, if the patch sets it
abbrev pub entry_if_set {ℓ} : {A : Type ℓ} → String → (A → Value) → PatchValue A → Dict Value
entry_if_set n f unset = []
entry_if_set n f (set a) = (n, f a) ∷ []

abbrev pub of_optional_dict : Option (Dict Value) → Value
of_optional_dict none = null
of_optional_dict (some d) = of_dict d

-- an instance shows as its dump
abbrev pub of_payload : Payload → Value
of_payload absent = null
of_payload (mapping d) = of_dict d
of_payload (instance_of m) = of_dict m.dump_python
of_payload (plain v) = v

unfoldable pub patch_to_dict : ConnectionPatch → Dict Value
patch_to_dict p =
    entry_if_set "name" of_text p.name
    ++ (entry_if_set "driver" of_text p.driver
        ++ (entry_if_set "driver_options" of_payload p.driver_options
            ++ (entry_if_set "properties" of_optional_dict p.properties
                ++ (entry_if_set "secrets" of_optional_dict p.secrets
                    ++ (entry_if_set "labels" of_optional_dict p.labels
                        ++ (entry_if_set "metadata" of_optional_dict p.metadata
                            ++ entry_if_set "extra" of_optional_dict p.extra))))))

unfoldable pub build_connection_patch_fields : List String
build_connection_patch_fields =
    "name" ∷ "driver" ∷ "driver_options" ∷ "properties" ∷ "secrets" ∷ "labels" ∷ "metadata"
    ∷ "extra" ∷ []

-- `dataclasses.asdict` of a draft
unfoldable pub asdict : ConnectionDraft → Dict Value
asdict d =
    ("name", of_text d.name)
    ∷ ("kind", str d.kind)
    ∷ ("type", str d.type)
    ∷ ("driver", of_text d.driver)
    ∷ ("driver_options", of_payload d.driver_options)
    ∷ ("properties", of_optional_dict d.properties)
    ∷ ("secrets", of_optional_dict d.secrets)
    ∷ ("labels", of_optional_dict d.labels)
    ∷ ("metadata", of_optional_dict d.metadata)
    ∷ ("extra", of_optional_dict d.extra)
    ∷ []
