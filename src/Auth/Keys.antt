-- ===== src/Auth/Keys.antt =====
-- The comparison of hashes, and what a key lets through.
use Prim.Native.Nat.{differ, digits, bit_or, bit_xor, bit_or-bitwise, bit_xor-bitwise}
use invoice_payment_service.Prelude.{
  ℕ, zero, suc, ◌/◌, ◌%◌, ◌≤◌, max, String, ◌≡◌, refl, sym, ◌∙◌, ap, ◌↔◌, inl, inr, true, Option,
  some, List, [], ◌∷◌, arith, length, Option-cases, Bool-cases,
}
use invoice_payment_service.Errors.{ok}
use invoice_payment_service.Domain.{Uuid, Time}
use invoice_payment_service.Domain.ApiKey.{ApiKey}
use invoice_payment_service.Table.{find}
use invoice_payment_service.Table.Laws.{exists_of_find}
use invoice_payment_service.Db.{Db}
use invoice_payment_service.Auth.{
  diff_bits, constant_time_eq, hash_key, derive_prefix, bearer_token, usable, require_api_key,
}

or_zero : (n a b : ℕ) → a ≤ n → digits (λ d. d) max n a b ≡ 0 → (a ≡ 0) × (b ≡ 0)
or_zero zero zero b h e = (refl, e)
or_zero zero (suc a) b h e = absurd (omega arith)
or_zero (suc n) zero b h e = (refl, e)
or_zero (suc n) (suc a) b h e =
    let rest = or_zero n (suc a / 2) (b / 2) (omega arith) (omega arith) in
    absurd (omega (arith, rest))

differ_zero : (x y : ℕ) → differ x y ≡ 0 → x ≡ y
differ_zero zero y h = sym h
differ_zero (suc x) zero h = h
differ_zero (suc x) (suc y) h = ap suc (differ_zero x y h)

differ_self : (x : ℕ) → differ x x ≡ 0
differ_self zero = refl
differ_self (suc x) = differ_self x

xor_zero : (n a b : ℕ) → a ≤ n → digits (λ d. d) differ n a b ≡ 0 → a ≡ b
xor_zero zero zero b h e = sym e
xor_zero zero (suc a) b h e = absurd (omega arith)
xor_zero (suc n) zero b h e = sym e
xor_zero (suc n) (suc a) b h e = omega (
  arith,
  xor_zero n (suc a / 2) (b / 2) (omega arith) (omega arith),
  differ_zero (suc a % 2) (b % 2) (omega arith),
)

xor_self : (n a : ℕ) → a ≤ n → digits (λ d. d) differ n a a ≡ 0
xor_self zero zero h = refl
xor_self zero (suc a) h = absurd (omega arith)
xor_self (suc n) zero h = refl
xor_self (suc n) (suc a) h =
    omega (arith, xor_self n (suc a / 2) (omega arith), differ_self (suc a % 2))

-- No bit is set in the end exactly if none was set before and the slices agree where both have bytes.
diff_bits_zero :
    (diff : ℕ) (a b : List ℕ) → length a ≡ length b → diff_bits diff a b ≡ 0 → (diff ≡ 0) × (a ≡ b)
unfolding diff_bits
diff_bits_zero diff [] [] h e = (e, refl)
diff_bits_zero diff [] (y ∷ ys) h e = ground arith
diff_bits_zero diff (x ∷ xs) [] h e = ground arith
diff_bits_zero diff (x ∷ xs) (y ∷ ys) h e =
    let (bits, rest) = diff_bits_zero (bit_or diff (bit_xor x y)) xs ys (omega arith) e in
    let (before, same) =
      or_zero diff diff (bit_xor x y) (omega arith)
        (sym (bit_or-bitwise diff (bit_xor x y)) ∙ bits) in
    (before, rw (xor_zero x x y (omega arith) (sym (bit_xor-bitwise x y) ∙ same), rest) refl)

diff_bits_self : (a : List ℕ) → diff_bits 0 a a ≡ 0
unfolding diff_bits
diff_bits_self [] = refl
diff_bits_self (x ∷ xs) =
    rw (bit_xor-bitwise x x, xor_self x x (omega arith), bit_or-bitwise 0 0) (diff_bits_self xs)

-- The comparison in constant time says true exactly for equal byte strings.
pub constant_time_eq_iff : (a b : List ℕ) → (constant_time_eq a b ≡ true) ↔ (a ≡ b)
unfolding constant_time_eq
constant_time_eq_iff a b = (
  λ h. (diff_bits_zero 0 a b (ground arith) (ground arith)).1,
  λ h. rw h (ground (arith, diff_bits_self b)),
)

-- A key of the business that the header's token opens.
abbrev pub HasKey : (List ℕ → List ℕ) → Time → Option String → Db → Uuid → Type 0
HasKey sha256 now header db business_id =
    (token : String) × (k : ApiKey) × (bearer_token header ≡ some token)
    × (find (usable now (derive_prefix token)) db.api_keys ≡ some k)
    × (usable now (derive_prefix token) k ≡ true)
    × (k.key_hash ≡ hash_key sha256 token)
    × (k.business_id ≡ business_id)

-- A request is let through for a business only with a token whose hash is stored in a key of that
-- business that has the token's prefix and is neither revoked nor expired.
pub require_api_key-HasKey :
    (sha256 : List ℕ → List ℕ) (now : Time) (header : Option String) (db : Db) (business_id : Uuid)
    → require_api_key sha256 now header db ≡ ok business_id
    → HasKey sha256 now header db business_id
unfolding require_api_key
require_api_key-HasKey sha256 now header db business_id h =
    elim (Option-cases (bearer_token header)) [
      | inl missing ↦ absurd (ground arith)
      | inr (token, given) ↦
          elim (Option-cases (find (usable now (derive_prefix token)) db.api_keys)) [
            | inl unknown_key ↦ absurd (ground arith)
            | inr (k, found) ↦
                elim (Bool-cases (constant_time_eq k.key_hash (hash_key sha256 token))) [
                  | inr wrong ↦ absurd (ground arith)
                  | inl right ↦ (
                    token,
                    k,
                    given,
                    found,
                    (exists_of_find (usable now (derive_prefix token)) k db.api_keys found).1,
                    (constant_time_eq_iff k.key_hash (hash_key sha256 token)).0 right,
                    ground arith,
                  )
                ]
          ]
    ]
