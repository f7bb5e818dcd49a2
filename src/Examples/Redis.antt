-- ===== src/Examples/Redis.antt =====
-- Commands and replies on the wire, query_server/src/redis_wire_protocol.rs.
use powdrr_engine.Common.{ℕ, ◌≡◌, refl, true, nat_eq, some, List, [], ◌∷◌, ◌++◌, all, arith}
use powdrr_engine.Common.Int.{pos}
use powdrr_engine.Redis.Text.{
  digits, decimal, decimal_ℤ, parse_digits, parse_i64, utf8_from, valid_utf8, split_from,
  split_whitespace,
}
use powdrr_engine.Redis.Wire.{
  bulk_string, null_bulk_string, integer, array, nil, cons, crlf, encode_resp_value,
  encode_resp_values, ok, err, panicked, read_until, strip_crlf, read_line, parse_length,
  parse_array_command, read_command, length_negative,
}
use powdrr_engine.Redis.RoundTrip.{
  bulk_strings, is_argument, read_command-encode_resp_value, read_command-panicked,
}

-- the bytes of "GET" and "k"
abbrev get_key : List (List ℕ)
get_key = (71 ∷ 69 ∷ 84 ∷ []) ∷ (107 ∷ []) ∷ []

-- the unit test of the source: "*3\r\n$5\r\nhello\r\n:2\r\n*1\r\n$-1\r\n"
encodes_nested_arrays :
    encode_resp_value (
      array (
        cons
          (bulk_string (104 ∷ 101 ∷ 108 ∷ 108 ∷ 111 ∷ []))
          (cons (integer (pos 2)) (cons (array (cons null_bulk_string nil)) nil))))
    ≡ 42 ∷ 51 ∷ 13 ∷ 10 ∷ 36 ∷ 53 ∷ 13 ∷ 10 ∷ 104 ∷ 101 ∷ 108 ∷ 108 ∷ 111 ∷ 13 ∷ 10 ∷ 58 ∷ 50 ∷ 13
      ∷ 10 ∷ 42 ∷ 49 ∷ 13 ∷ 10 ∷ 36 ∷ 45 ∷ 49 ∷ 13 ∷ 10 ∷ []
unfolding encode_resp_value encode_resp_values decimal decimal_ℤ digits
encodes_nested_arrays = refl

-- " GET  k\r\n" and "*-1\r\n"
read_inline : read_command (32 ∷ 71 ∷ 69 ∷ 84 ∷ 32 ∷ 32 ∷ 107 ∷ 13 ∷ 10 ∷ []) ≡ ok (some get_key) []
unfolding read_command read_line read_until strip_crlf valid_utf8 utf8_from split_whitespace
    split_from
read_inline = refl

read_negative : read_command (42 ∷ 45 ∷ 49 ∷ 13 ∷ 10 ∷ []) ≡ err length_negative
unfolding read_command read_line read_until strip_crlf valid_utf8 utf8_from parse_array_command
    parse_length parse_i64 parse_digits
read_negative = refl

get_key-arguments : all is_argument get_key ≡ true
unfolding valid_utf8 utf8_from
get_key-arguments = refl

read_command-encode_resp_value_example :
    read_command (encode_resp_value (array (bulk_strings get_key)) ++ (43 ∷ []))
    ≡ ok (some get_key) (43 ∷ [])
read_command-encode_resp_value_example =
    read_command-encode_resp_value get_key (43 ∷ []) get_key-arguments (omega arith)

read_command-panicked_example :
    read_command (42 ∷ decimal 400000000000000000 ++ (crlf ++ [])) ≡ panicked
read_command-panicked_example =
    read_command-panicked 400000000000000000 [] (omega arith) (omega arith)

-- "GET"
abbrev get_text : List ℕ
get_text = 71 ∷ 69 ∷ 84 ∷ []

-- "GET\r\nk"
