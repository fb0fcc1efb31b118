-- ===== src/Int.antt =====
-- Python's integers, signed and unbounded, over the native numbers, and `str` of one.
use Prim.Native.Nat.{◌/◌, ◌%◌, ◌-◌}
use Prim.Native.String.{◌++◌ as text_append}
use db_connections.Prelude.{
  Bool, String, false, if◌then◌else◌, leb, refl, suc, true, zero, ℕ, ◌&&◌, ◌*◌, ◌≡◌,
}

-- `negsuc n` is -(n + 1).
pub data ℤ : Type 0 where
  pos : ℕ → ℤ
  negsuc : ℕ → ℤ

infix 50 ◌==ℤ◌
abbrev pub ◌==ℤ◌ : ℤ → ℤ → Bool
◌==ℤ◌ (pos m) (pos n) = leb m n && leb n m
◌==ℤ◌ (negsuc m) (negsuc n) = leb m n && leb n m
◌==ℤ◌ _ _ = false

-- `n >= z` of a natural `n`
abbrev pub at_least : ℕ → ℤ → Bool
at_least n (pos m) = leb m n
at_least n (negsuc m) = true

-- `lo <= z <= hi` between naturals
abbrev pub between : ℕ → ℤ → ℕ → Bool
between lo (pos n) hi = leb lo n && leb n hi
between lo (negsuc n) hi = false

-- `z * k` for a natural `k`
abbrev pub scale : ℤ → ℕ → ℤ
scale (pos n) k = pos (n * k)
scale (negsuc n) k = if leb k 0 then pos 0 else negsuc (suc n * k - 1)

digit : ℕ → String
digit n =
    if leb n 0
    then "0"
    else if leb n 1
    then "1"
    else if leb n 2
    then "2"
    else if leb n 3
    then "3"
    else if leb n 4
    then "4"
    else if leb n 5
    then "5"
    else if leb n 6
    then "6"
    else if leb n 7
    then "7"
    else if leb n 8
    then "8"
    else "9"

-- the decimal digits in front of a text; the number of rounds bounds the number of digits
digits : ℕ → ℕ → String → String
unfolding digit
digits zero n acc = acc
digits (suc f) n acc =
    let rest = digits f (n / 10) (text_append (digit (n % 10)) acc) in
    if leb n 9 then text_append (digit n) acc else rest

-- `str(z)`
unfoldable pub int_text : ℤ → String
unfolding digits
int_text (pos n) = digits (suc n) n ""
int_text (negsuc n) = text_append "-" (digits (suc (suc n)) (suc n) "")

int_text_30 : int_text (pos 30) ≡ "30"
unfolding int_text
int_text_30 = refl

int_text_neg : int_text (negsuc 104) ≡ "-105"
unfolding int_text
int_text_neg = refl
