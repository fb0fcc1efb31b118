-- ===== src/Linting.antt =====
-- tools/pylint_plugins/no_large_inline_collections.py: the checker of large literals. A literal of
-- the syntax tree (astroid) is seen with its ancestors, from its parent up, each by what the checker
-- reads of it.
use db_connections.Connectors.Stripping.{is_space, split_comma, strip}
use db_connections.Int.{at_least, pos, ℤ, ◌==ℤ◌}
use db_connections.Prelude.{
  Bool, Bool-cases, List, Option, String, [], any, arith, elem, false, if◌then◌else◌, inl, inr,
  keep_if, leb, map, none, not, refl, some, true, truthy, ℕ, ◌&&◌, ◌||◌, ◌∷◌, ◌≡◌,
}

-- a node with an identity, the name it assigns if it does, and its children
mutual
  pub data Tree : Type 0 where
    tree : ℕ → Option String → Trees → Tree

  pub data Trees : Type 0 where
    none_left : Trees
    and_then : Tree → Trees → Trees

-- `_contains_node`
unfoldable mutual
  pub contains_node : Tree → ℕ → Bool
  contains_node (tree i name children) needle =
      (leb i needle && leb needle i) || any_contains children needle

  pub any_contains : Trees → ℕ → Bool
  any_contains none_left needle = false
  any_contains (and_then t ts) needle = contains_node t needle || any_contains ts needle

-- the classes of ancestors that are told apart, with their targets
pub data ParentClass : Type 0 where
  assign : List Tree → ParentClass
  ann_assign : Tree → ParentClass
  named_expr : Tree → ParentClass
  for_loop : Tree → ParentClass
  other_class : ParentClass

-- `annotations` holds the nodes under all the attributes for annotations
pub record Ancestor : Type 0 where
  pub class_ : ParentClass
  pub annotations : List Tree

-- `_collection_type` and `_collection_size` of a literal
pub record Literal : Type 0 where
  pub id : ℕ
  pub collection_type : String
  pub size : ℕ
  pub ancestors : List Ancestor

-- `any(contains(target, node) for target in targets)`
abbrev pub in_any : List Tree → ℕ → Bool
in_any targets needle = any (λ t. contains_node t needle) targets

-- `_is_inside_assignment_value`: the loop over the ancestors
unfoldable pub inside_assignment_value : ℕ → List Ancestor → Bool
inside_assignment_value needle [] = false
inside_assignment_value needle (a ∷ above) =
    let rest = inside_assignment_value needle above in
    elim a.class_ [
      | assign targets ↦ not (in_any targets needle)
      | ann_assign target ↦ not (contains_node target needle)
      | named_expr target ↦ not (contains_node target needle)
      | _ ↦ rest
    ]

module _ (is_upper : String → Bool) where
  -- `_is_constant_assign_target`
  unfoldable pub is_constant_target : Tree → Bool
  is_constant_target (tree i none children) = false
  is_constant_target (tree i (some name) children) = is_upper name

  -- `_is_inside_constant_assignment`
  unfoldable pub inside_constant_assignment : ℕ → List Ancestor → Bool
  inside_constant_assignment needle [] = false
  inside_constant_assignment needle (a ∷ above) =
      let rest = inside_constant_assignment needle above in
      elim a.class_ [
        | assign targets ↦ if in_any targets needle then false else any is_constant_target targets
        | ann_assign target ↦
            if contains_node target needle then false else is_constant_target target
        | _ ↦ rest
      ]

-- `_is_assignment_target`
unfoldable pub is_assignment_target : ℕ → List Ancestor → Bool
is_assignment_target needle [] = false
is_assignment_target needle (a ∷ above) =
    let rest = is_assignment_target needle above in
    elim a.class_ [
      | assign targets ↦ in_any targets needle
      | ann_assign target ↦ contains_node target needle
      | for_loop target ↦ contains_node target needle
      | _ ↦ rest
    ]

-- `_is_inside_type_annotation`
unfoldable pub inside_type_annotation : ℕ → List Ancestor → Bool
inside_type_annotation needle ancestors =
    any (λ (a : Ancestor). in_any a.annotations needle) ancestors

-- an option of the linter: a text with commas, or the items
pub data CsvOption : Type 0 where
  csv_text : String → CsvOption
  csv_items : List String → CsvOption

abbrev option_items : CsvOption → List String
option_items (csv_text s) = split_comma s
option_items (csv_items xs) = xs

pub record LinterConfig : Type 0 where
  pub max_inline_collection_items : ℤ
  pub large_inline_collection_types : CsvOption
  pub large_inline_collection_ignore_contexts : CsvOption

module _ (lower : String → String) (is_upper : String → Bool) where
  -- `_normalize_csv_option`
  unfoldable pub normalize_csv_option : CsvOption → List String
  normalize_csv_option value =
      map (λ s. lower (strip is_space s))
        (keep_if (λ s. truthy (strip is_space s)) (option_items value))

  -- `_should_ignore_by_context`
  unfoldable pub should_ignore : List String → Literal → Bool
  should_ignore ignored_contexts node =
      (elem "assignment" ignored_contexts && inside_assignment_value node.id node.ancestors)
      || ((elem "constant-assignment" ignored_contexts
            && inside_constant_assignment is_upper node.id node.ancestors)
          || ((elem "assignment-target" ignored_contexts
                && is_assignment_target node.id node.ancestors)
              || (elem "type-annotation" ignored_contexts
                  && inside_type_annotation node.id node.ancestors)))

  -- `_check_collection`: the arguments of the message, if there is one
  unfoldable pub check_collection : LinterConfig → Literal → Option (String × ℕ)
  check_collection config node =
      if not (elem node.collection_type (normalize_csv_option config.large_inline_collection_types))
      then none
      else if should_ignore (normalize_csv_option config.large_inline_collection_ignore_contexts)
          node
      then none
      else if not (at_least node.size config.max_inline_collection_items)
          || (pos node.size ==ℤ config.max_inline_collection_items)
      then none
      else some (node.collection_type, node.size)

  -- `(target := value)` assigns a name, which holds no literal
  abbrev pub names_only : ℕ → List Ancestor → Bool
  names_only needle [] = true
  names_only needle (a ∷ above) =
      let rest = names_only needle above in
      (elim a.class_ [ named_expr target ↦ not (contains_node target needle) | _ ↦ true ]) && rest

  constant_value :
      (needle : ℕ) (ancestors : List Ancestor)
      → names_only needle ancestors ≡ true
      → inside_constant_assignment is_upper needle ancestors ≡ true
      → inside_assignment_value needle ancestors ≡ true
  unfolding inside_constant_assignment inside_assignment_value
  constant_value needle [] names h = ground arith
  constant_value needle (a ∷ above) names h = ground (arith, constant_value needle above)

  -- Where values of assignments are ignored, it makes no difference whether values of assignments to
  -- constants are ignored as well.
  pub should_ignore-constant :
      (contexts : List String) (node : Literal)
      → names_only node.id node.ancestors ≡ true
      → elem "assignment" contexts ≡ true
      → should_ignore ("constant-assignment" ∷ contexts) node ≡ should_ignore contexts node
  unfolding should_ignore
  should_ignore-constant contexts node names listed =
      elim (Bool-cases (inside_constant_assignment is_upper node.id node.ancestors)) [
        | inl c ↦ let v = constant_value node.id node.ancestors names c in rw (listed, v) refl
        | inr c ↦ rw c (ground arith)
      ]
