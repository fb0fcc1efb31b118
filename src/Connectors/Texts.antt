-- ===== src/Connectors/Texts.antt =====
-- The text operations that the connectors use: `in`, a slice from the start, and `split`.
use Prim.Native.Nat.{compare, Ordering}
use Prim.Native.Char.{code as char_code}
use Prim.Native.String.{◌∷◌ as char_cons, ◌++◌ as text_append}
use db_connections.Prelude.{Bool, List, String, [], false, refl, suc, true, zero, ℕ, ◌||◌, ◌∷◌, ◌≡◌}

-- `text.startswith(prefix)`
unfoldable pub starts_with : String → String → Bool
starts_with String.[] text = true
starts_with (String.◌∷◌ c prefix) String.[] = false
starts_with (String.◌∷◌ c prefix) (String.◌∷◌ d text) =
    let rest = starts_with prefix text in
    elim (compare (char_code c) (char_code d)) [ Ordering.eq ↦ rest | _ ↦ false ]

-- `part in text`
unfoldable pub occurs_in : String → String → Bool
unfolding starts_with
occurs_in part String.[] = starts_with part ""
occurs_in part (String.◌∷◌ c text) = starts_with part (char_cons c text) || occurs_in part text

-- `text[:n]`
unfoldable pub take_text : ℕ → String → String
take_text zero text = ""
take_text (suc n) String.[] = ""
take_text (suc n) (String.◌∷◌ c text) = char_cons c (take_text n text)

-- a character in front of the first part
abbrev pub onto_first : String → List String → List String
onto_first c [] = c ∷ []
onto_first c (part ∷ parts) = text_append c part ∷ parts

-- `text.split("/")`
unfoldable pub split_slash : String → List String
split_slash String.[] = "" ∷ []
split_slash (String.◌∷◌ c text) =
    let rest = split_slash text in
    elim (compare (char_code c) b'/') [
      | Ordering.eq ↦ "" ∷ rest
      | _ ↦ onto_first (char_cons c "") rest
    ]

occurs_in_reply : occurs_in "530" "530 Login incorrect." ≡ true
unfolding occurs_in starts_with
occurs_in_reply = refl

split_path : split_slash "/srv//data" ≡ "" ∷ "srv" ∷ "" ∷ "data" ∷ []
unfolding split_slash
split_path = refl
