-- ===== src/Db/Tests.antt =====
-- A cursor, with conversions that move every code unit by one.
use assaybank.Prelude.{◌+◌, ◌-◌, ◌≡◌, ◌↔◌, refl, true, none, some, [], ◌∷◌, map}
use assaybank.Prelude.Text.{Text}
use assaybank.Db.Cursor.{Keyset, is_timestamp, is_uuid, encode_keyset_cursor, decode_keyset_cursor}
use assaybank.Db.Cursor.RoundTrip.{decode-encode_keyset_iff}

abbrev to_base64url : Text → Text
to_base64url = map (λ c. c + 1)

abbrev of_base64url : Text → Text
of_base64url = map (λ c. c - 1)

-- `0190a000-0000-7000-8000-00000000000F`
abbrev uuid : Text
uuid =
    b'0' ∷ b'1' ∷ b'9' ∷ b'0' ∷ b'a' ∷ b'0' ∷ b'0' ∷ b'0' ∷ b'-' ∷ b'0' ∷ b'0' ∷ b'0' ∷ b'0' ∷ b'-'
    ∷ b'7' ∷ b'0' ∷ b'0' ∷ b'0' ∷ b'-' ∷ b'8' ∷ b'0' ∷ b'0' ∷ b'0' ∷ b'-' ∷ b'0' ∷ b'0' ∷ b'0'
    ∷ b'0' ∷ b'0' ∷ b'0' ∷ b'0' ∷ b'0' ∷ b'0' ∷ b'0' ∷ b'0' ∷ b'F' ∷ []

-- `2026-10-20 09:00:00.123456+00`
abbrev first_row : Keyset
first_row = record {
  at =
      b'2' ∷ b'0' ∷ b'2' ∷ b'6' ∷ b'-' ∷ b'1' ∷ b'0' ∷ b'-' ∷ b'2' ∷ b'0' ∷ b' ' ∷ b'0' ∷ b'9'
      ∷ b':' ∷ b'0' ∷ b'0' ∷ b':' ∷ b'0' ∷ b'0' ∷ b'.' ∷ b'1' ∷ b'2' ∷ b'3' ∷ b'4' ∷ b'5' ∷ b'6'
      ∷ b'+' ∷ b'0' ∷ b'0' ∷ [];
  id = uuid;
}

-- The same without the seconds.
abbrev mangled_row : Keyset
mangled_row = record {
  at =
      b'2' ∷ b'0' ∷ b'2' ∷ b'6' ∷ b'-' ∷ b'1' ∷ b'0' ∷ b'-' ∷ b'2' ∷ b'0' ∷ b' ' ∷ b'0' ∷ b'9'
      ∷ b':' ∷ b'0' ∷ b'0' ∷ b'+' ∷ b'0' ∷ b'0' ∷ [];
  id = uuid;
}

read_back :
    decode_keyset_cursor of_base64url (encode_keyset_cursor to_base64url first_row) ≡ some first_row
unfolding decode_keyset_cursor encode_keyset_cursor
read_back = refl

mangled : decode_keyset_cursor of_base64url (encode_keyset_cursor to_base64url mangled_row) ≡ none
unfolding decode_keyset_cursor encode_keyset_cursor
mangled = refl

decode-encode_keyset_iff_example :
    (decode_keyset_cursor of_base64url (encode_keyset_cursor to_base64url first_row)
      ≡ some first_row)
    ↔ ((is_timestamp first_row.at ≡ true) × (is_uuid first_row.id ≡ true))
decode-encode_keyset_iff_example = decode-encode_keyset_iff to_base64url of_base64url first_row refl
