-- ===== src/Pagination/CursorRoundTrip.antt =====
-- A cursor is read back as the position that it was written for.
use Prim.Native.Char.{char}
use Prim.Native.String.{◌++◌ as str_append}
use text.Mathlib.TextLemmas.{nil-append, cons-append, append-nil}
use invoice_payment_service.Prelude.{
  ◌≡◌, refl, false, String, some, arith, Text.as_bytes, Text.contains_char, Text.split_at,
  Utf8.from_utf8-as_bytes,
}
use invoice_payment_service.Domain.{Uuid, Time}
use invoice_payment_service.Pagination.Cursor.{CursorCrates, bar, encode_cursor, decode_cursor}

split_at-append :
    (s u t : String)
    → split_at bar u ≡ ("", some t)
    → contains_char bar s ≡ false
    → split_at bar (str_append s u) ≡ (s, some t)
unfolding split_at contains_char
split_at-append String.[] u t front h = rw (nil-append u) front
split_at-append (String.◌∷◌ c s) u t front h =
    rw (cons-append c s u) (ground (arith, split_at-append s u t front))

split_at-bar : (t : String) → split_at bar (str_append "|" t) ≡ ("", some t)
unfolding split_at
split_at-bar t = rw (cons-append (char 0x7c tt) "" t, nil-append t) refl

-- A cursor is decoded to the time and the id that it was encoded from: where `hex` reads
-- back the bytes of every text, `chrono` and `uuid` read back what they write for this time and id, and the text of a time has no `|`.
pub decode_cursor-encode_cursor :
    (c : CursorCrates) (created_at : Time) (id : Uuid)
    → ((s : String) → c.hex_decode (c.hex_encode (as_bytes s)) ≡ some (as_bytes s))
    → c.parse_from_rfc3339 (c.to_rfc3339 created_at) ≡ some created_at
    → c.parse_uuid (c.uuid_text id) ≡ some id
    → contains_char bar (c.to_rfc3339 created_at) ≡ false
    → decode_cursor c (encode_cursor c created_at id) ≡ some (created_at, id)
unfolding decode_cursor encode_cursor
decode_cursor-encode_cursor c created_at id hex time uuid plain =
    rw
      (
        hex _,
        from_utf8-as_bytes _,
        append-nil (c.uuid_text id),
        split_at-append (c.to_rfc3339 created_at) _ (c.uuid_text id) (split_at-bar (c.uuid_text id))
            plain,
        time,
        uuid,
      )
      refl
