-- ===== src/Api/Builder/Given.antt =====
-- fastapi/builder.py: the kinds and types given to a builder, and the runtime that it builds.
use db_connections.Api.Builder.Building.{in_place-Keeps}
use db_connections.Dict.{get-insert_self, insert}
use db_connections.Dict.Keyed.{All}
use db_connections.Domain.{KindSpec, TypeSpec}
use db_connections.Dsl.Applying.{in_place}
use db_connections.Dsl.Invariant.{Extends, Extends-refl, Extends-trans}
use db_connections.Exec.{for_each}
use db_connections.Exec.Keeps.{Keeps-for_each}
use db_connections.Prelude.{List, [], arith, false, inl, inr, refl, subst, sym, ◌∷◌, ◌≡◌}
use db_connections.Registry.{ConnectionRegistry, get_kind, get_type, register_kind, register_type}
use db_connections.Result.{Result, Result-cases, ok}

-- The kinds and types that were given are what the registry answers.
abbrev pub HasTypes : List TypeSpec → ConnectionRegistry → Type 0
HasTypes types r = All (λ (spec : TypeSpec). get_type spec.name r ≡ ok spec) types

abbrev pub HasKinds : List KindSpec → ConnectionRegistry → Type 0
HasKinds kinds r = All (λ (spec : KindSpec). get_kind spec.name r ≡ ok spec) kinds

pub register_type-get_type :
    (spec : TypeSpec) (r r' : ConnectionRegistry)
    → register_type spec false r ≡ ok r'
    → get_type spec.name r' ≡ ok spec
unfolding register_type get_type
register_type-get_type spec r r' h =
    let stored : record r { types = insert spec.name spec r.types } ≡ r' = ground arith in
    subst (λ (x : ConnectionRegistry). get_type spec.name x ≡ ok spec) stored
      (rw (get_type, get-insert_self spec.name spec r.types) refl)

pub get_type-kept :
    (spec : TypeSpec) (r r' : ConnectionRegistry)
    → Extends r r'
    → get_type spec.name r ≡ ok spec
    → get_type spec.name r' ≡ ok spec
unfolding get_type
get_type-kept spec r r' x h = elim (x.types_kept spec.name) [
  | inl missing ↦ ground arith
  | inr same ↦ ground arith
]

pub register_kind-get_kind :
    (spec : KindSpec) (r r' : ConnectionRegistry)
    → register_kind spec false r ≡ ok r'
    → get_kind spec.name r' ≡ ok spec
unfolding register_kind get_kind
register_kind-get_kind spec r r' h =
    let stored : record r { kinds = insert spec.name spec r.kinds } ≡ r' = ground arith in
    subst (λ (x : ConnectionRegistry). get_kind spec.name x ≡ ok spec) stored
      (rw (get_kind, get-insert_self spec.name spec r.kinds) refl)

pub get_kind-kept :
    (spec : KindSpec) (r r' : ConnectionRegistry)
    → Extends r r'
    → get_kind spec.name r ≡ ok spec
    → get_kind spec.name r' ≡ ok spec
unfolding get_kind
get_kind-kept spec r r' x h = elim (x.kinds_kept spec.name) [
  | inl missing ↦ ground arith
  | inr same ↦ ground arith
]

-- a loop that registers entries one by one, each of which is found and replaces nothing
module _ {A : Type 0} (register : A → ConnectionRegistry → Result ConnectionRegistry)
    (Has : A → ConnectionRegistry → Type 0)
    (step : (a : A) (r r' : ConnectionRegistry) → register a r ≡ ok r' → Extends r r' × Has a r')
    (kept : (a : A) (r r' : ConnectionRegistry) → Extends r r' → Has a r → Has a r') where
  pub loop-Extends :
      (xs : List A) (r : ConnectionRegistry)
      → Extends r (for_each xs (λ a. in_place (register a)) r).1
  loop-Extends xs r =
      (Keeps-for_each (Extends r) xs _ (λ a.
          in_place-Keeps (Extends r) (register a)
            (λ r1 r2 x e. Extends-trans r r1 r2 x (step a r1 r2 e).0))).at
        r (Extends-refl r)

  pub loop-All :
      (xs : List A) (r : ConnectionRegistry)
      → let run = for_each xs (λ a. in_place (register a)) r in
        run.0 ≡ ok tt → All (λ a. Has a run.1) xs
  unfolding for_each
  loop-All [] r h = tt
  loop-All (a ∷ xs) r h = elim (Result-cases (register a r)) [
    | inr (x, e) ↦ absurd (ground arith)
    | inl (r', e) ↦
        let loop = λ (rest : List A). for_each rest (λ b. in_place (register b)) in
        let run : loop (a ∷ xs) r ≡ loop xs r' = rw e refl in
        subst (λ x. All (λ b. Has b x.1) (a ∷ xs)) (sym run)
          (
            kept a r' (loop xs r').1 (loop-Extends xs r') (step a r r' e).1,
            loop-All xs r' (rw run at h),
          )
  ]
