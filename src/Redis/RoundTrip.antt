-- ===== src/Redis/RoundTrip.antt =====
-- Commands of query_server/src/redis_wire_protocol.rs as a client writes them, and as the server
-- reads them.
use powdrr_engine.Common.{
  ℕ, ◌+◌, ◌*◌, ◌<◌, ◌≤◌, ◌≡◌, refl, Bool, true, false, ◌&&◌, some, List, [], ◌∷◌, ◌++◌, ◌∙◌, leb,
  nat_eq, all, arith, length,
}
use powdrr_engine.Redis.Text.{decimal, i64_max, valid_utf8}
use powdrr_engine.Redis.Wire.{
  RespValue, RespValues, bulk_string, array, nil, cons, crlf, encode_resp_value, encode_resp_values,
  ok, ◌>>=◌, panicked, read_line, read_items, parse_array_command, read_command, length_values,
  read_item,
}
use powdrr_engine.Redis.Framing.{
  append_assoc, parse_length-decimal, read_bulk_string-decimal, read_line-header,
}

abbrev pub bulk_strings : List (List ℕ) → RespValues
bulk_strings [] = nil
bulk_strings (arg ∷ args) = cons (bulk_string arg) (bulk_strings args)

-- a text that is UTF-8 and short enough to be read into a vector
abbrev pub is_argument : List ℕ → Bool
is_argument bytes = valid_utf8 bytes && leb (length bytes + 2) i64_max

append_assoc_four :
    (vs ws xs ys zs : List ℕ) → (((vs ++ ws) ++ xs) ++ ys) ++ zs ≡ vs ++ (ws ++ (xs ++ (ys ++ zs)))
append_assoc_four vs ws xs ys zs =
    append_assoc ((vs ++ ws) ++ xs) ys zs
    ∙ append_assoc (vs ++ ws) xs (ys ++ zs)
    ∙ append_assoc vs ws (xs ++ (ys ++ zs))

-- the bytes of a bulk string, before the bytes of what follows
encode-bulk_string :
    (bytes rest : List ℕ)
    → encode_resp_value (bulk_string bytes) ++ rest
      ≡ 36 ∷ decimal (length bytes) ++ (crlf ++ (bytes ++ (crlf ++ rest)))
unfolding encode_resp_value
encode-bulk_string bytes rest = append_assoc_four (36 ∷ decimal (length bytes)) crlf bytes crlf rest

read_line-bulk_string :
    (bytes rest : List ℕ)
    → read_line (encode_resp_value (bulk_string bytes) ++ rest)
      ≡ ok (some (36 ∷ decimal (length bytes))) (bytes ++ (crlf ++ rest))
read_line-bulk_string bytes rest =
    rw (encode-bulk_string bytes rest)
      (read_line-header 36 (length bytes) (bytes ++ (crlf ++ rest)) (omega arith) refl)

read_item-bulk_string :
    (bytes rest : List ℕ)
    → is_argument bytes ≡ true
    → read_item (some (36 ∷ decimal (length bytes))) (bytes ++ (crlf ++ rest)) ≡ ok bytes rest
read_item-bulk_string bytes rest h =
    read_bulk_string-decimal bytes rest (ground arith) (ground arith)

encode-cons :
    (item : RespValue) (items : RespValues) (rest : List ℕ)
    → encode_resp_values (cons item items) ++ rest
      ≡ encode_resp_value item ++ (encode_resp_values items ++ rest)
unfolding encode_resp_values
encode-cons item items rest = append_assoc (encode_resp_value item) (encode_resp_values items) rest

read_items-encode :
    (args : List (List ℕ)) (rest : List ℕ)
    → all is_argument args ≡ true
    → read_items (length args) (encode_resp_values (bulk_strings args) ++ rest) ≡ ok args rest
unfolding read_items encode_resp_values
read_items-encode [] rest h = refl
read_items-encode (arg ∷ args) rest h =
    rw
      (
        read_items,
        encode-cons (bulk_string arg) (bulk_strings args) rest,
        read_line-bulk_string arg (encode_resp_values (bulk_strings args) ++ rest),
        read_item-bulk_string arg (encode_resp_values (bulk_strings args) ++ rest) (ground arith),
        read_items-encode args rest (ground arith),
      )
      refl

length_values-bulk_strings :
    (args : List (List ℕ)) → length_values (bulk_strings args) ≡ length args
length_values-bulk_strings [] = refl
length_values-bulk_strings (arg ∷ args) = omega (arith, length_values-bulk_strings args)

encode-array :
    (args : List (List ℕ)) (rest : List ℕ)
    → encode_resp_value (array (bulk_strings args)) ++ rest
      ≡ 42 ∷ decimal (length args) ++ (crlf ++ (encode_resp_values (bulk_strings args) ++ rest))
unfolding encode_resp_value
encode-array args rest = rw (length_values-bulk_strings args) (
    append_assoc (42 ∷ decimal (length args) ++ crlf) (encode_resp_values (bulk_strings args)) rest
    ∙ append_assoc (42 ∷ decimal (length args)) crlf
        (encode_resp_values (bulk_strings args) ++ rest))

read_command-array :
    (n : ℕ) (rest : List ℕ)
    → read_command (42 ∷ decimal n ++ (crlf ++ rest))
      ≡ (parse_array_command (decimal n) rest >>= λ items. ok (some items.0) items.1)
unfolding read_command
read_command-array n rest = rw (read_command, read_line-header 42 n rest (omega arith) refl) refl

parse_array_command-encode :
    (args : List (List ℕ)) (rest : List ℕ)
    → all is_argument args ≡ true
    → length args * 24 ≤ i64_max
    → parse_array_command (decimal (length args)) (encode_resp_values (bulk_strings args) ++ rest)
      ≡ ok args rest
unfolding parse_array_command
parse_array_command-encode args rest h l =
    rw
      (
        parse_array_command,
        parse_length-decimal (length args) (encode_resp_values (bulk_strings args) ++ rest)
            (omega arith),
        fits,
        read_items-encode args rest h,
      )
      refl
  where
    fits : leb (length args * 24) i64_max ≡ true
    fits = ground arith

-- A command that a client writes as an array of bulk strings, each of them valid UTF-8, is read as
-- its arguments, and the stream goes on with the bytes after the command. The vectors that hold an
-- argument and the arguments must not be too large to be allocated.
pub read_command-encode_resp_value :
    (args : List (List ℕ)) (rest : List ℕ)
    → all is_argument args ≡ true
    → length args * 24 ≤ i64_max
    → read_command (encode_resp_value (array (bulk_strings args)) ++ rest) ≡ ok (some args) rest
read_command-encode_resp_value args rest h l =
    rw
      (
        encode-array args rest,
        read_command-array (length args) (encode_resp_values (bulk_strings args) ++ rest),
        parse_array_command-encode args rest h l,
      )
      refl

-- An array header whose length is a valid `i64` is a panic when a vector of so many strings would
-- take more than `isize::MAX` bytes, whatever the peer sends after it.
pub read_command-panicked :
    (n : ℕ) (rest : List ℕ)
    → n ≤ i64_max
    → i64_max < n * 24
    → read_command (42 ∷ decimal n ++ (crlf ++ rest)) ≡ panicked
unfolding parse_array_command
read_command-panicked n rest h l =
    rw (read_command-array n rest, parse_array_command, parse_length-decimal n rest h, does_not_fit)
      refl
  where
    does_not_fit : leb (n * 24) i64_max ≡ false
    does_not_fit = ground arith
