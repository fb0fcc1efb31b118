-- ===== src/Compat/Urls/Texts.antt =====
-- Queries of the first version (compat/url_builder.py) as texts, and how entries may be reordered.
-- `str(value)`
use db_connections.Compat.Urls.{
  Setting, flag, milliseconds, number, put_if, put_number, put_text, text_value,
}
use db_connections.Connectors.Sql.Query.{bool_text, scaled, set_if, set_number, set_text}
use db_connections.Dict.{Dict, get}
use db_connections.Int.{int_text, ℤ}
use db_connections.Prelude.{
  Bool, Option, String, [], ap, arith, eq_iff, false, if◌then◌else◌, map_option, none, refl, some,
  true, ◌++◌, ◌==◌, ◌∷◌, ◌≡◌,
}

abbrev pub setting_text : Setting → String
setting_text (number n) = int_text n
setting_text (text_value s) = s
setting_text (flag none) = "None"
setting_text (flag (some b)) = bool_text b

-- the query as texts
abbrev pub as_texts : Dict Setting → Dict String
as_texts [] = []
as_texts ((key, v) ∷ q) = (key, setting_text v) ∷ as_texts q

pub as_texts-append : (a b : Dict Setting) → as_texts (a ++ b) ≡ as_texts a ++ as_texts b
as_texts-append [] b = refl
as_texts-append ((key, v) ∷ a) b = ap (λ q. (key, setting_text v) ∷ q) (as_texts-append a b)

pub as_texts-put_number :
    (key : String) (n : Option ℤ) → as_texts (put_number key number n) ≡ set_number key n
as_texts-put_number key none = refl
as_texts-put_number key (some n) = refl

pub as_texts-put_number-scaled :
    (key : String) (n : Option ℤ)
    → as_texts (put_number key milliseconds n) ≡ set_number key (scaled n)
as_texts-put_number-scaled key none = refl
as_texts-put_number-scaled key (some n) = refl

pub as_texts-put_number_text :
    (key : String) (n : Option ℤ)
    → as_texts (put_number key (λ z. text_value (int_text z)) n) ≡ set_number key n
as_texts-put_number_text key none = refl
as_texts-put_number_text key (some n) = refl

pub as_texts-put_text :
    (key : String) (o : Option String) → as_texts (put_text key o) ≡ set_text key o
as_texts-put_text key none = refl
as_texts-put_text key (some s) = ground arith

pub as_texts-put_if : (b : Bool) (q : Dict Setting) → as_texts (put_if b q) ≡ set_if b (as_texts q)
as_texts-put_if true q = refl
as_texts-put_if false q = refl

pub ruleset as_texts_laws = (
  as_texts-append, as_texts-put_number, as_texts-put_number-scaled, as_texts-put_text,
  as_texts-put_if,
)

pub get-append :
    (key : String) (a b c : Dict String)
    → get key b ≡ get key c
    → get key (a ++ b) ≡ get key (a ++ c)
get-append key [] b c h = h
get-append key ((j, v) ∷ a) b c h = ground (arith, get-append key a b c h)

pub append_empty : (a : Dict String) → a ++ [] ≡ a
append_empty [] = refl
append_empty (x ∷ a) = ap (λ r. x ∷ r) (append_empty a)

pub append_assoc : (a b c : Dict String) → (a ++ b) ++ c ≡ a ++ (b ++ c)
append_assoc [] b c = refl
append_assoc (x ∷ a) b c = ap (λ r. x ∷ r) (append_assoc a b c)

pub swap_text :
    (k j v key : String) (o : Option String) (rest : Dict String)
    → (k == j) ≡ false
    → get key (set_text k o ++ ((j, v) ∷ rest)) ≡ get key ((j, v) ∷ (set_text k o ++ rest))
swap_text k j v key none rest d = refl
swap_text k j v key (some s) rest d = ground (arith, eq_iff k j, eq_iff k key, eq_iff j key)

pub swap_texts :
    (i k j v w key : String) (o : Option String)
    → (k == i) ≡ false
    → (k == j) ≡ false
    → get key (set_text k o ++ ((i, v) ∷ (j, w) ∷ [])) ≡ get key ((i, v) ∷ (j, w) ∷ set_text k o)
swap_texts i k j v w key none d e = refl
swap_texts i k j v w key (some s) d e =
    ground (arith, eq_iff k j, eq_iff k i, eq_iff k key, eq_iff j key, eq_iff i key)

-- an entry of a query, where the text under the key `k` is "None" if the flag is not given
abbrev pub shown : Option Bool → String → String → Option String → Option String
shown (some b) k key o = o
shown none k key o = if k == key then map_option (λ _. "None") o else o

-- the entry under `k` alone differs
pub shown_at :
    (k key w : String) (a b : Dict String)
    → get k a ≡ none
    → get key (a ++ ((k, "None") ∷ b)) ≡ shown none k key (get key (a ++ ((k, w) ∷ b)))
shown_at k key w [] b h = ground arith
shown_at k key w ((j, v) ∷ a) b h =
    ground (arith, shown_at k key w a b, eq_iff j k, eq_iff j key, eq_iff k key)

-- and there is none
pub shown_absent :
    (k key : String) (a : Dict String) → get k a ≡ none → get key a ≡ shown none k key (get key a)
shown_absent k key a h = ground (arith, eq_iff k key)

pub number_absent : (k j : String) (n : Option ℤ) → (j == k) ≡ false → get k (set_number j n) ≡ none
number_absent k j none d = refl
number_absent k j (some n) d = ground arith

pub absent_append :
    (k : String) (a b : Dict String) → get k a ≡ none → get k b ≡ none → get k (a ++ b) ≡ none
absent_append k [] b h g = g
absent_append k ((j, v) ∷ a) b h g = ground (arith, absent_append k a b)

pub shown_given :
    (v : Option Bool) (b : Bool) (k key : String) (o : Option String)
    → v ≡ some b
    → shown v k key o ≡ o
shown_given none b k key o h = ground arith
shown_given (some c) b k key o h = refl
