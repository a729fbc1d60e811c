-- ===== src/Prelude/Utf8.antt =====
-- Rust's `char::from_u32` and `String::from_utf8`, and that the second takes back what `str::as_bytes`
-- gives.
use Prim.Native.Nat.{ℕ, zero, suc, ◌+◌, ◌-◌, ◌*◌, ◌≤◌, ◌<◌, Ordering, compare}
use Prim.Native.Char.{Char, char, code, IsLt, IsScalar}
use Prim.Native.String.{String}
use mathlib.Core.Path.{◌≡◌, refl, ap, ◌∙◌}
use mathlib.Core.Bool.{Bool, true, false, ◌&&◌}
use mathlib.Core.Option.{Option, none, some}
use mathlib.Core.List.{List, [], ◌∷◌, ◌++◌}
use native.Mathlib.Omega.{arith}
use text.Mathlib.TextEquality.{Char-path}
use invoice_payment_service.Prelude.Tests.{ltb, leb, ltb→lt, if◌then◌else◌}
use mathlib.Core.Logic.{◌⊎◌, inl, inr}
use invoice_payment_service.Prelude.Lists.{length, length-append}
use invoice_payment_service.Prelude.Text.{utf8_char, as_bytes}

-- The type `IsScalar` of the library, by its three comparisons.
abbrev Both : Ordering → Ordering → Type 0
Both Ordering.lt o = IsLt o
Both Ordering.eq _ = ⊥
Both Ordering.gt _ = ⊥

abbrev Scalar : Ordering → Ordering → Ordering → Type 0
Scalar Ordering.lt _ _ = Unit
Scalar Ordering.eq o p = Both o p
Scalar Ordering.gt o p = Both o p

abbrev both_of : (o p : Ordering) → Option (Both o p)
both_of Ordering.lt Ordering.lt = some tt
both_of Ordering.lt _ = none
both_of Ordering.eq _ = none
both_of Ordering.gt _ = none

abbrev scalar_of : (o p q : Ordering) → Option (Scalar o p q)
scalar_of Ordering.lt _ _ = some tt
scalar_of Ordering.eq o p = both_of o p
scalar_of Ordering.gt o p = both_of o p

abbrev char_with : (n : ℕ) → Option (IsScalar n) → Option Char
char_with n none = none
char_with n (some s) = some (char n s)

-- `char::from_u32`
unfoldable from_u32 : ℕ → Option Char
from_u32 n = char_with n (scalar_of (compare n 55296) (compare 57343 n) (compare n 1114112))

both_of_given : (o p : Ordering) → Both o p → (s : Both o p) × (both_of o p ≡ some s)
both_of_given Ordering.lt Ordering.lt s = (tt, refl)
both_of_given Ordering.lt Ordering.eq s = elim s [ ]
both_of_given Ordering.lt Ordering.gt s = elim s [ ]
both_of_given Ordering.eq p s = elim s [ ]
both_of_given Ordering.gt p s = elim s [ ]

scalar_of_given :
    (o p q : Ordering) → Scalar o p q → (s : Scalar o p q) × (scalar_of o p q ≡ some s)
scalar_of_given Ordering.lt p q s = (tt, refl)
scalar_of_given Ordering.eq p q s = both_of_given p q s
scalar_of_given Ordering.gt p q s = both_of_given p q s

from_u32-code : (c : Char) → from_u32 (code c) ≡ some c
unfolding from_u32
from_u32-code (char n s) =
    let (s', e) = scalar_of_given (compare n 55296) (compare 57343 n) (compare n 1114112) s in
    ap (char_with n) e ∙ ap some (Char-path (char n s') (char n s) refl)

both_bound : (o q : Ordering) → Both o q → q ≡ Ordering.lt
both_bound Ordering.lt Ordering.lt s = refl
both_bound Ordering.lt Ordering.eq s = elim s [ ]
both_bound Ordering.lt Ordering.gt s = elim s [ ]
both_bound Ordering.eq q s = elim s [ ]
both_bound Ordering.gt q s = elim s [ ]

scalar_cases : (o p q : Ordering) → Scalar o p q → (o ≡ Ordering.lt) ⊎ (q ≡ Ordering.lt)
scalar_cases Ordering.lt p q s = inl refl
scalar_cases Ordering.eq p q s = inr (both_bound p q s)
scalar_cases Ordering.gt p q s = inr (both_bound p q s)

abbrev is_lt : Ordering → Bool
is_lt o = elim o [ Ordering.lt ↦ true | _ ↦ false ]

scalar_bound : (n : ℕ) → IsScalar n → n < 1114112
scalar_bound n s = elim (scalar_cases (compare n 55296) (compare 57343 n) (compare n 1114112) s) [
  | inl low ↦ omega (arith, ltb→lt n 55296 (ap is_lt low))
  | inr high ↦ ltb→lt n 1114112 (ap is_lt high)
]

code_bound : (c : Char) → code c < 1114112
code_bound (char n s) = scalar_bound n s

-- A byte `10xxxxxx`.
abbrev continuation : ℕ → Bool
continuation b = leb 0x80 b && ltb b 0xc0

-- One code point behind a lead byte of two, three and four bytes; the shortest form only.
abbrev two_bytes : ℕ → List ℕ → Option (ℕ × List ℕ)
two_bytes b (b1 ∷ rest) =
    let n = (b - 0xc0) * 0x40 + (b1 - 0x80) in
    if continuation b1 && leb 0x80 n then some (n, rest) else none
two_bytes b _ = none

abbrev three_bytes : ℕ → List ℕ → Option (ℕ × List ℕ)
three_bytes b (b1 ∷ b2 ∷ rest) =
    let n = (b - 0xe0) * 0x1000 + (b1 - 0x80) * 0x40 + (b2 - 0x80) in
    if (continuation b1 && continuation b2) && leb 0x800 n then some (n, rest) else none
three_bytes b _ = none

abbrev four_bytes : ℕ → List ℕ → Option (ℕ × List ℕ)
four_bytes b (b1 ∷ b2 ∷ b3 ∷ rest) =
    let n = (b - 0xf0) * 0x40000 + (b1 - 0x80) * 0x1000 + (b2 - 0x80) * 0x40 + (b3 - 0x80) in
    if ((continuation b1 && continuation b2) && continuation b3) && leb 0x10000 n
    then some (n, rest)
    else none
four_bytes b _ = none

-- The first code point of some bytes, and the bytes behind it.
unfoldable decode_point : List ℕ → Option (ℕ × List ℕ)
decode_point [] = none
decode_point (b ∷ rest) =
    if ltb b 0x80
    then some (b, rest)
    else if ltb b 0xc0
    then none
    else if ltb b 0xe0
    then two_bytes b rest
    else if ltb b 0xf0
    then three_bytes b rest
    else if ltb b 0xf8
    then four_bytes b rest
    else none

decode_point-utf8_char :
    (n : ℕ) (rest : List ℕ) → n < 1114112 → decode_point (utf8_char n ++ rest) ≡ some (n, rest)
unfolding decode_point utf8_char
decode_point-utf8_char n rest h = ground arith

-- A text, by rounds that each take a code point: no more of them than bytes are needed.
abbrev one_more : Option Char → Option String → Option String
one_more (some c) (some s) = some (String.◌∷◌ c s)
one_more _ _ = none

unfoldable utf8_rounds : ℕ → List ℕ → Option String
unfolding decode_point from_u32
utf8_rounds fuel [] = some String.[]
utf8_rounds zero (b ∷ bs) = none
utf8_rounds (suc fuel) (b ∷ bs) = elim (decode_point (b ∷ bs)) [
  | none ↦ none
  | some (n, rest) ↦ one_more (from_u32 n) (utf8_rounds fuel rest)
]

-- `String::from_utf8`
unfoldable pub from_utf8 : List ℕ → Option String
unfolding utf8_rounds
from_utf8 bytes = utf8_rounds (length bytes) bytes

length-utf8_char : (n : ℕ) → 1 ≤ length (utf8_char n)
unfolding utf8_char
length-utf8_char n = ground arith

round :
    (fuel n : ℕ) (rest bytes : List ℕ)
    → decode_point bytes ≡ some (n, rest)
    → utf8_rounds (suc fuel) bytes ≡ one_more (from_u32 n) (utf8_rounds fuel rest)
unfolding utf8_rounds decode_point
round fuel n rest [] h = cc
round fuel n rest (b ∷ bs) h = rw (h, utf8_rounds) refl

utf8_rounds-as_bytes :
    (fuel : ℕ) (s : String) → length (as_bytes s) ≤ fuel → utf8_rounds fuel (as_bytes s) ≡ some s
unfolding utf8_rounds as_bytes
utf8_rounds-as_bytes fuel String.[] h = refl
utf8_rounds-as_bytes zero (String.◌∷◌ c s) h =
    absurd
      (omega (arith, length-utf8_char (code c), length-append (utf8_char (code c)) (as_bytes s)))
utf8_rounds-as_bytes (suc fuel) (String.◌∷◌ c s) h =
    round fuel (code c) (as_bytes s) (utf8_char (code c) ++ as_bytes s)
      (decode_point-utf8_char (code c) (as_bytes s) (code_bound c))
    ∙ rw
        (
          from_u32-code c,
          utf8_rounds-as_bytes fuel s (
              omega (
                arith,
                length-utf8_char (code c),
                length-append (utf8_char (code c)) (as_bytes s),
              )),
        )
        refl

-- `from_utf8` takes back the bytes of a text.
pub from_utf8-as_bytes : (s : String) → from_utf8 (as_bytes s) ≡ some s
unfolding from_utf8
from_utf8-as_bytes s = utf8_rounds-as_bytes (length (as_bytes s)) s (omega arith)

-- Two texts with the same bytes are the same.
pub as_bytes_injective : (s t : String) → as_bytes s ≡ as_bytes t → s ≡ t
as_bytes_injective s t h = cc (from_utf8-as_bytes s, from_utf8-as_bytes t, h)
