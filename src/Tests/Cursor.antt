-- ===== src/Tests/Cursor.antt =====
-- Cursors at concrete inputs.
use enigma_relay.Base.{◌≡◌, refl, arith}
use enigma_relay.Base.Text.{codes, split_once}
use enigma_relay.Base.Decimal.{format_020, parse_u64}
use enigma_relay.Base.Utf8.{as_bytes, from_utf8}
use enigma_relay.Error.{ok, err}
use enigma_relay.Store.{encode_cursor, decode_cursor, invalid_cursor}
use enigma_relay.Store.Cursor.{decode_cursor-encode_cursor, decode_cursor-colon}
use enigma_relay.Tests.Data.{latin, alice}

format_seven : format_020 7 ≡ codes "00000000000000000007"
unfolding format_020
format_seven = refl

cursor_text : encode_cursor latin alice 7 ≡ codes "alice:00000000000000000007"
unfolding encode_cursor format_020 as_bytes
cursor_text = refl

read_plus : decode_cursor latin (codes "bob:+12") ≡ ok (codes "bob", 12)
unfolding decode_cursor parse_u64 split_once as_bytes from_utf8
read_plus = refl

decode_cursor-encode_cursor_example :
    decode_cursor latin (encode_cursor latin alice 7) ≡ ok (alice, 7)
decode_cursor-encode_cursor_example =
    decode_cursor-encode_cursor latin alice 7 (omega arith) (omega arith) (omega arith)

decode_cursor-colon_example :
    decode_cursor latin (encode_cursor latin (codes "a:5") 7) ≡ err invalid_cursor
decode_cursor-colon_example =
    decode_cursor-colon latin (codes "a") (codes "5") 7 (omega arith) (omega arith)
