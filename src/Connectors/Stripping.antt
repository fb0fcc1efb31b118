-- ===== src/Connectors/Stripping.antt =====
-- `str.strip` and `str.split(",")`, as the properties of the connectors use them.
use Prim.Native.Nat.{compare, Ordering}
use Prim.Native.Char.{Char, code as char_code}
use Prim.Native.String.{◌∷◌ as char_cons}
use db_connections.Prelude.{
  Bool, Bool-cases, List, String, [], any, ap, false, if◌then◌else◌, inl, inr, leb, quote, refl,
  ◌&&◌, ◌||◌, ◌∙◌, ◌∷◌, ◌≡◌,
}

-- `c.isspace()` of the characters that `strip()` removes, by their code points
abbrev pub is_space : Char → Bool
is_space c =
    let n = char_code c in
    (leb 9 n && leb n 13)
    || ((leb 28 n && leb n 32)
        || (any (λ m. leb m n && leb n m)
              (133 ∷ 160 ∷ 5760 ∷ 8232 ∷ 8233 ∷ 8239 ∷ 8287 ∷ 12288 ∷ [])
            || (leb 8192 n && leb n 8202)))

abbrev pub is_slash : Char → Bool
is_slash c = let n = char_code c in leb 47 n && leb n 47

module _ (p : Char → Bool) where
  -- `s.lstrip(...)`
  unfoldable pub strip_left : String → String
  strip_left String.[] = ""
  strip_left (String.◌∷◌ c s) = let rest = strip_left s in if p c then rest else char_cons c s

  -- a character in front of what is left
  abbrev onto : Char → String → String
  onto c String.[] = if p c then "" else char_cons c ""
  onto c (String.◌∷◌ d s) = char_cons c (char_cons d s)

  -- `s.rstrip(...)`
  unfoldable pub strip_right : String → String
  strip_right String.[] = ""
  strip_right (String.◌∷◌ c s) = onto c (strip_right s)

  -- `s.strip(...)`
  unfoldable pub strip : String → String
  unfolding strip_left strip_right
  strip s = strip_right (strip_left s)

  onto-strip_right : (c : Char) (s : String) → strip_right s ≡ s → strip_right (onto c s) ≡ onto c s
  unfolding strip_right
  onto-strip_right c String.[] h = elim (Bool-cases (p c)) [
    | inl b ↦ rw b refl
    | inr b ↦ rw b (rw b refl)
  ]
  onto-strip_right c (String.◌∷◌ d s) h = ap (onto c) h

  strip_right_idem : (s : String) → strip_right (strip_right s) ≡ strip_right s
  unfolding strip_right
  strip_right_idem String.[] = refl
  strip_right_idem (String.◌∷◌ c s) = onto-strip_right c (strip_right s) (strip_right_idem s)

  strip_left-onto : (c : Char) (s : String) → p c ≡ false → strip_left (onto c s) ≡ onto c s
  unfolding strip_left
  strip_left-onto c String.[] b = simp b
  strip_left-onto c (String.◌∷◌ d s) b = simp b

  stripped_left :
      (s : String) → strip_left (strip_right (strip_left s)) ≡ strip_right (strip_left s)
  unfolding strip_left strip_right
  stripped_left String.[] = refl
  stripped_left (String.◌∷◌ c s) = elim (Bool-cases (p c)) [
    | inl b ↦ rw b (stripped_left s)
    | inr b ↦ rw b (strip_left-onto c (strip_right s) b)
  ]

  -- what is stripped stays as it is
  pub strip_idem : (s : String) → strip (strip s) ≡ strip s
  unfolding strip
  strip_idem s = ap strip_right (stripped_left s) ∙ strip_right_idem (strip_left s)

-- a character in front of the first part
abbrev onto_part : String → List String → List String
onto_part c [] = c ∷ []
onto_part c (part ∷ parts) = quote c part "" ∷ parts

-- `s.split(",")`
unfoldable pub split_comma : String → List String
split_comma String.[] = "" ∷ []
split_comma (String.◌∷◌ c s) =
    let rest = split_comma s in
    elim (compare (char_code c) b',') [
      | Ordering.eq ↦ "" ∷ rest
      | _ ↦ onto_part (char_cons c "") rest
    ]
