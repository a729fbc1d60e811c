-- ===== src/Tests/Texts.antt =====
-- Cursors, fingerprints and the configuration at concrete inputs.
use Prim.Native.Char.{char}
use invoice_payment_service.Prelude.{
  ℕ, zero, suc, ◌^◌, ◌≤◌, ◌<◌, ◌≡◌, refl, ap, String, false, Option, none, some, List, [], ◌∷◌,
  arith, length, str_eq, if◌then◌else◌, Text.as_bytes, Text.char_count, Text.contains_char,
  Text.decimal, Utf8.from_utf8, Utf8.from_utf8-as_bytes,
}
use invoice_payment_service.Prelude.Int.{ℤ, pos}
use invoice_payment_service.Domain.{Uuid, Time}
use invoice_payment_service.Domain.Invoice.{Invoice, open_}
use invoice_payment_service.Table.{where_, order_by, count}
use invoice_payment_service.Pagination.{newest_first}
use invoice_payment_service.Pagination.Cursor.{
  CursorCrates, bar, encode_cursor, decode_cursor, codec_of,
}
use invoice_payment_service.Pagination.CursorRoundTrip.{decode_cursor-encode_cursor}
use invoice_payment_service.Pagination.Order.{IdsDiffer}
use invoice_payment_service.Pagination.Walk.{walk, walk_lem}
use invoice_payment_service.PaymentService.Types.{Crates}
use invoice_payment_service.PaymentService.Fingerprint.{fingerprint_input}
use invoice_payment_service.PaymentService.Inputs.{fingerprint_input_injective}
use invoice_payment_service.Tests.{invoice_in}
use invoice_payment_service.Tests.Basics.{created, id_of, any}

-- A number as so many letters.
unary : ℕ → String
unary zero = ""
unary (suc n) = String.◌∷◌ (char 0x61 tt) (unary n)

char_count-unary : (n : ℕ) → char_count (unary n) ≡ n
unfolding char_count unary
char_count-unary zero = refl
char_count-unary (suc n) = ap suc (char_count-unary n)

unary_plain : (n : ℕ) → contains_char bar (unary n) ≡ false
unfolding contains_char unary
unary_plain zero = refl
unary_plain (suc n) = unary_plain n

abbrev text_or_empty : Option String → String
text_or_empty none = ""
text_or_empty (some s) = s

abbrev cursor_crates : CursorCrates
cursor_crates = record {
  hex_encode = λ bytes. text_or_empty (from_utf8 bytes);
  hex_decode = λ s. some (as_bytes s);
  to_rfc3339 = unary;
  parse_from_rfc3339 = λ s. some (char_count s);
  uuid_text = unary;
  parse_uuid = λ s. some (char_count s);
}

hex_reads :
    (s : String)
    → cursor_crates.hex_decode (cursor_crates.hex_encode (as_bytes s)) ≡ some (as_bytes s)
hex_reads s = rw (from_utf8-as_bytes s) refl

read_back :
    (ts : Time) (i : Uuid)
    → decode_cursor cursor_crates (encode_cursor cursor_crates ts i) ≡ some (ts, i)
read_back ts i =
    decode_cursor-encode_cursor cursor_crates ts i hex_reads (ap some (char_count-unary ts))
      (ap some (char_count-unary i)) (unary_plain ts)

decode_cursor-encode_cursor_example :
    decode_cursor cursor_crates (encode_cursor cursor_crates 12 7) ≡ some (12, 7)
decode_cursor-encode_cursor_example =
    decode_cursor-encode_cursor cursor_crates 12 7 hex_reads (ap some (char_count-unary 12))
      (ap some (char_count-unary 7)) (unary_plain 12)

abbrev rows : List Invoice
rows = invoice_in open_ ∷ record (invoice_in open_) { id = 11; created_at = 4 } ∷ []

ids_differ : IdsDiffer created id_of rows
unfolding count
ids_differ i = ground arith

two_rows : length (order_by (newest_first created id_of) (where_ any rows)) ≤ 2
unfolding order_by where_
two_rows = omega arith

walk_lem_example :
    walk created id_of (codec_of cursor_crates) any (some (pos 1)) rows 2 none
    ≡ order_by (newest_first created id_of) (where_ any rows)
walk_lem_example =
    walk_lem created id_of (codec_of cursor_crates) any (some (pos 1)) rows ids_differ read_back 2
      two_rows

-- An id as sixteen numbers, the first of which tells it apart.
abbrev sixteen : Uuid → List ℕ
sixteen u = u ∷ 0 ∷ 0 ∷ 0 ∷ 0 ∷ 0 ∷ 0 ∷ 0 ∷ 0 ∷ 0 ∷ 0 ∷ 0 ∷ 0 ∷ 0 ∷ 0 ∷ 0 ∷ []

abbrev pub uuid_crates : Crates
uuid_crates = record { uuid_text = decimal; uuid_bytes = sixteen; sha256 = λ bytes. bytes }

abbrev amount : ℤ
amount = pos 4200

pub sixteen_length : (u : Uuid) → length (uuid_crates.uuid_bytes u) ≡ 16
sixteen_length u = refl

pub sixteen_apart : (u v : Uuid) → uuid_crates.uuid_bytes u ≡ uuid_crates.uuid_bytes v → u ≡ v
sixteen_apart u v h = cc

pub in_range : 4200 < 2 ^ 63
in_range = omega arith

same_input :
    fingerprint_input uuid_crates 10 "tok_success" amount
    ≡ fingerprint_input uuid_crates 10 "tok_success" amount
same_input = refl

fingerprint_input_injective_example :
    (◌≡◌ {A = ℕ} 10 10) × (◌≡◌ {A = String} "tok_success" "tok_success") × (amount ≡ amount)
fingerprint_input_injective_example =
    fingerprint_input_injective uuid_crates 10 10 "tok_success" "tok_success" amount amount
      sixteen_length sixteen_apart in_range in_range same_input

abbrev env : String → Option String
env name =
    if str_eq name "DATABASE_URL"
    then some "postgres://db"
    else if str_eq name "PSP_TIMEOUT_MS"
    then some (decimal 250)
    else none
