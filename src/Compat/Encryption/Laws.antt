-- ===== src/Compat/Encryption/Laws.antt =====
-- What the encryption of sensitive fields (compat/encryption.py) keeps and hides.
use Prim.Native.Char.{Char}
use Prim.Native.String.append as Append
use Prim.Native.String.{◌∷◌ as char_cons, ◌++◌ as text_append}
use db_connections.Compat.Encryption.{
  change_field, change_fields, decrypt_sensitive_fields, decrypt_value, drop_text,
  encrypt_sensitive_fields, encrypt_value, fernet_prefix, sensitive_fields,
}
use db_connections.Connectors.Texts.{starts_with}
use db_connections.Dict.{Dict, get, get-insert}
use db_connections.Infra.Encryption.{Fernet}
use db_connections.Prelude.{
  Bool, List, Option, Option-cases, String, [], all, ap, arith, elem, eq_iff, false, get_or,
  if◌then◌else◌, inl, inr, is_some, map_option, none, not, refl, some, suc, true, ℕ, ◌&&◌, ◌==◌,
  ◌||◌, ◌∙◌, ◌∷◌, ◌≡◌, ◌⊎◌,
}
use db_connections.Value.{Value, is_null, null, str}

-- the native appending, at a text that starts with a character
append_cons :
    (c : Char) (s t : String) → text_append (char_cons c s) t ≡ char_cons c (text_append s t)
append_cons c s t = λ i. Append.cons c s t i

abbrev text_length : String → ℕ
text_length String.[] = 0
text_length (String.◌∷◌ c s) = suc (text_length s)

drop_text-append : (s t : String) → drop_text (text_length s) (text_append s t) ≡ t
unfolding drop_text
drop_text-append String.[] t = λ i. Append.nil t i
drop_text-append (String.◌∷◌ c s) t = ground (arith, append_cons c s t, drop_text-append s t)

starts_with-append : (s t : String) → starts_with s (text_append s t) ≡ true
unfolding starts_with
starts_with-append String.[] t = refl
starts_with-append (String.◌∷◌ c s) t = ground (arith, append_cons c s t, starts_with-append s t)

module _ (f : Value → Value) where
  -- a value that is not `None` is changed
  abbrev pub changed : Value → Value
  changed v = if is_null v then v else f v

  get-change_field :
      (name k : String) (d : Dict Value)
      → get k (change_field f name d)
        ≡ (if name == k then map_option changed (get k d) else get k d)
  unfolding change_field
  get-change_field name k d = elim (Option-cases (get name d)) [
    | inl e ↦ ground (arith, eq_iff name k)
    | inr (v, e) ↦ ground (arith, eq_iff name k, get-insert name k (f v) d)
  ]

  -- names that do not occur twice
  abbrev is_distinct : List String → Bool
  is_distinct [] = true
  is_distinct (x ∷ xs) = not (elem x xs) && is_distinct xs

  pub get-change_fields :
      (names : List String) (k : String) (d : Dict Value)
      → is_distinct names ≡ true
      → get k (change_fields f names d)
        ≡ (if elem k names then map_option changed (get k d) else get k d)
  unfolding change_fields
  get-change_fields [] k d h = refl
  get-change_fields (name ∷ names) k d h = ground (
    arith,
    eq_iff name k,
    get-change_field name k d,
    get-change_fields names k (change_field f name d),
  )

-- texts that are not empty carry the prefix
abbrev pub is_sealed : Value → Bool
is_sealed (str s) = s == "" || starts_with fernet_prefix s
is_sealed v = true

-- texts that do not carry it
abbrev pub is_plain : Value → Bool
is_plain (str s) = not (starts_with fernet_prefix s)
is_plain v = true

module _ (fernet : Fernet) where
  get-encrypt :
      (k : String) (d : Dict Value)
      → get k (encrypt_sensitive_fields (some fernet) d) ≡ (
          if elem k sensitive_fields
          then map_option (changed (encrypt_value fernet)) (get k d)
          else get k d)
  unfolding encrypt_sensitive_fields
  get-encrypt k d = get-change_fields (encrypt_value fernet) sensitive_fields k d refl

  get-decrypt :
      (k : String) (d : Dict Value)
      → get k (decrypt_sensitive_fields (some fernet) d) ≡ (
          if elem k sensitive_fields
          then map_option (changed (decrypt_value fernet)) (get k d)
          else get k d)
  unfolding decrypt_sensitive_fields
  get-decrypt k d = get-change_fields (decrypt_value fernet) sensitive_fields k d refl

  is_sealed-encrypt_value : (v : Value) → is_sealed (encrypt_value fernet v) ≡ true
  unfolding encrypt_value
  is_sealed-encrypt_value (str s) =
      ground (arith, starts_with-append fernet_prefix (fernet.encrypt s))
  is_sealed-encrypt_value v = refl

  encrypt_value_idem :
      (v : Value) → encrypt_value fernet (encrypt_value fernet v) ≡ encrypt_value fernet v
  unfolding encrypt_value
  encrypt_value_idem (str s) = ground (arith, starts_with-append fernet_prefix (fernet.encrypt s))
  encrypt_value_idem v = refl

  decrypt-encrypt_value :
      (v : Value)
      → ((s : String) → fernet.decrypt (fernet.encrypt s) ≡ some s)
      → is_plain v ≡ true
      → decrypt_value fernet (encrypt_value fernet v) ≡ v
  unfolding encrypt_value decrypt_value
  decrypt-encrypt_value (str s) own h =
      let token = drop_text-append fernet_prefix (fernet.encrypt s) in
      let marked = starts_with-append fernet_prefix (fernet.encrypt s) in
      let back = own s in ground arith
  decrypt-encrypt_value v own h = refl

all-elem :
    (p : String → Bool) (k : String) (xs : List String)
    → all p xs ≡ true
    → elem k xs ≡ true
    → p k ≡ true
all-elem p k [] h e = ground arith
all-elem p k (x ∷ xs) h e = ground (arith, eq_iff x k, all-elem p k xs)

-- `payload.get(name)`
abbrev pub value_at : String → Dict Value → Value
value_at name d = get_or (get name d) null

module _ (fernet : Fernet) where
  changed-encrypt_value : (v : Value) → changed (encrypt_value fernet) v ≡ encrypt_value fernet v
  unfolding encrypt_value
  changed-encrypt_value null = refl
  changed-encrypt_value v = refl

  changed-decrypt_value : (v : Value) → changed (decrypt_value fernet) v ≡ decrypt_value fernet v
  unfolding decrypt_value
  changed-decrypt_value null = refl
  changed-decrypt_value v = refl

  sealed_at :
      (k : String) (d : Dict Value)
      → elem k sensitive_fields ≡ true
      → is_sealed (value_at k (encrypt_sensitive_fields (some fernet) d)) ≡ true
  sealed_at k d e = elim (Option-cases (get k d)) [
    | inl h ↦ rw (get-encrypt fernet k d, e, h) refl
    | inr (v, h) ↦
        rw (get-encrypt fernet k d, e, h, changed-encrypt_value v)
          (is_sealed-encrypt_value fernet v)
  ]

  twice :
      (b : Bool) (o : Option Value) {o1 o2 : Option Value}
      → o1 ≡ (if b then map_option (changed (encrypt_value fernet)) o else o)
      → o2 ≡ (if b then map_option (changed (encrypt_value fernet)) o1 else o1)
      → o2 ≡ o1
  twice true none h1 h2 = ground arith
  twice true (some v) h1 h2 =
      let e1 = changed-encrypt_value v in
      let e2 = changed-encrypt_value (encrypt_value fernet v) in
      let i = encrypt_value_idem fernet v in ground arith
  twice false o h1 h2 = h2

  round_trip :
      (b : Bool) (o : Option Value) {o1 o2 : Option Value}
      → o1 ≡ (if b then map_option (changed (encrypt_value fernet)) o else o)
      → o2 ≡ (if b then map_option (changed (decrypt_value fernet)) o1 else o1)
      → ((s : String) → fernet.decrypt (fernet.encrypt s) ≡ some s)
      → (b ≡ true → is_plain (get_or o null) ≡ true)
      → o2 ≡ o
  round_trip true none h1 h2 own unmarked = ground arith
  round_trip true (some v) h1 h2 own unmarked =
      let e1 = changed-encrypt_value v in
      let e2 = changed-decrypt_value (encrypt_value fernet v) in
      let i = decrypt-encrypt_value fernet v own (unmarked refl) in ground arith
  round_trip false o h1 h2 own unmarked = h2 ∙ h1

  encrypt_twice :
      (k : String) (d : Dict Value)
      → let sealed = encrypt_sensitive_fields (some fernet) d in
        get k (encrypt_sensitive_fields (some fernet) sealed) ≡ get k sealed
  encrypt_twice k d =
      twice (elem k sensitive_fields) (get k d) (get-encrypt fernet k d)
        (get-encrypt fernet k (encrypt_sensitive_fields (some fernet) d))

-- Decrypting what was encrypted gives back the payload, if the cipher decrypts its own tokens and
-- no sensitive text starts with the prefix that marks tokens.
pub decrypt-encrypt_sensitive_fields :
    (fernet : Fernet) (payload : Dict Value) (k : String)
    → ((s : String) → fernet.decrypt (fernet.encrypt s) ≡ some s)
    → all (λ name. is_plain (value_at name payload)) sensitive_fields ≡ true
    → get k
        (decrypt_sensitive_fields (some fernet) (encrypt_sensitive_fields (some fernet) payload))
      ≡ get k payload
decrypt-encrypt_sensitive_fields fernet payload k own unmarked =
    round_trip fernet (elem k sensitive_fields) (get k payload) (get-encrypt fernet k payload)
      (get-decrypt fernet k (encrypt_sensitive_fields (some fernet) payload)) own
      (all-elem (λ name. is_plain (value_at name payload)) k sensitive_fields unmarked)

sealed_all :
    {b1 b2 b3 b4 b5 : Bool}
    → b1 ≡ true
    → b2 ≡ true
    → b3 ≡ true
    → b4 ≡ true
    → b5 ≡ true
    → (b1 && (b2 && (b3 && (b4 && (b5 && true))))) ≡ true
sealed_all h1 h2 h3 h4 h5 = simp (h1, h2, h3, h4, h5)

-- an entry that is changed under a test
module _ (f : Value → Value) (o : Option Value) where
  elsewhere :
      (b : Bool) {o' : Option Value}
      → o' ≡ (if b then map_option f o else o)
      → (b ≡ true) ⊎ (o' ≡ o)
  elsewhere true h = inl refl
  elsewhere false h = inr h

  present :
      (b : Bool) {o' : Option Value}
      → o' ≡ (if b then map_option f o else o)
      → is_some o' ≡ is_some o
  present true h = elim (Option-cases o) [ inl e ↦ ground arith | inr (v, e) ↦ ground arith ]
  present false h = ap is_some h

-- Whatever a payload holds, encrypting it leaves no sensitive text without the prefix that marks
-- tokens but the empty one, keeps every other entry, adds and removes none, and encrypting the
-- result again changes nothing.
pub encrypt_sensitive_fields_lem :
    (fernet : Fernet) (payload : Dict Value) (k : String)
    → let sealed = encrypt_sensitive_fields (some fernet) payload in
      (all (λ name. is_sealed (value_at name sealed)) sensitive_fields ≡ true)
      × ((elem k sensitive_fields ≡ true) ⊎ (get k sealed ≡ get k payload))
      × (is_some (get k sealed) ≡ is_some (get k payload))
      × (get k (encrypt_sensitive_fields (some fernet) sealed) ≡ get k sealed)
encrypt_sensitive_fields_lem fernet payload k = (
  sealed_all (sealed_at fernet "password" payload refl)
      (sealed_at fernet "sasl_plain_password" payload refl)
      (sealed_at fernet "access_token_id" payload refl)
      (sealed_at fernet "access_token_key" payload refl)
      (sealed_at fernet "session_token" payload refl),
  elsewhere (changed (encrypt_value fernet)) (get k payload) (elem k sensitive_fields)
      (get-encrypt fernet k payload),
  present (changed (encrypt_value fernet)) (get k payload) (elem k sensitive_fields)
      (get-encrypt fernet k payload),
  encrypt_twice fernet k payload,
)
