-- ===== src/Examples/MongoDb.antt =====
-- Runs of query_server/src/mongodb_wire_protocol.rs on small inputs. A document is a text of bytes, with
-- a length before it and a zero after it, as BSON has it.
use powdrr_engine.Common.{
  ℕ, ◌≤◌, ◌≡◌, refl, subst, true, Option, none, some, List, [], ◌∷◌, ◌++◌, length, arith,
}
use powdrr_engine.Common.Int.{ℤ, pos}
use powdrr_engine.MongoDb.Bytes.{take, drop, to_le_bytes}
use powdrr_engine.MongoDb.Wire.{
  ◌>>=◌, ok, err, several_commands, Bson, parse_op_msg_command, encode_op_msg_response, receive,
  slice, byte_at, read_u32, read_i32, read_length, sections_of, read_sections, read_section,
  parse_document,
}
use powdrr_engine.MongoDb.Bounds.{returns, any_value, parse_op_msg_command-returns}
use powdrr_engine.MongoDb.RoundTrip.{IsBson, is_i32, receive-encode_op_msg_response}
use powdrr_engine.MongoDb.Connection.{Served, handle_connection, handle_connection-returns}

-- the documents of five bytes and more that carry one byte
abbrev byte_from : List ℕ → Option ℕ
byte_from (a ∷ b ∷ c ∷ d ∷ value ∷ []) = some value
byte_from _ = none

abbrev bytes_of : ℕ → List ℕ
bytes_of value = 5 ∷ 0 ∷ 0 ∷ 0 ∷ value ∷ []

abbrev byte_documents : Bson
byte_documents = record {
  Document = ℕ;
  from_slice = byte_from;
  to_vec = λ value. some (bytes_of value);
}

length_first : (value : ℕ) → take 4 (bytes_of value) ≡ to_le_bytes (length (bytes_of value))
unfolding take
length_first value = refl

byte_documents-IsBson : IsBson byte_documents
byte_documents-IsBson = record {
  begins = λ d bytes h. begun d bytes h;
  at_least = λ d bytes h. long d bytes h;
  decodes = λ d bytes h. decoded d bytes h;
}
  where
    same : (d : ℕ) (bytes : List ℕ) → some (bytes_of d) ≡ some bytes → bytes_of d ≡ bytes
    same d bytes h = cc

    begun :
        (d : ℕ) (bytes : List ℕ)
        → some (bytes_of d) ≡ some bytes
        → take 4 bytes ≡ to_le_bytes (length bytes)
    begun d bytes h =
        subst (λ bs. take 4 bs ≡ to_le_bytes (length bs)) (same d bytes h) (length_first d)

    long : (d : ℕ) (bytes : List ℕ) → some (bytes_of d) ≡ some bytes → 5 ≤ length bytes
    long d bytes h = subst (λ bs. 5 ≤ length bs) (same d bytes h) (omega arith)

    decoded : (d : ℕ) (bytes : List ℕ) → some (bytes_of d) ≡ some bytes → byte_from bytes ≡ some d
    decoded d bytes h = subst (λ bs. byte_from bs ≡ some d) (same d bytes h) refl

abbrev command_body : List ℕ
command_body = 0 ∷ 0 ∷ 0 ∷ 0 ∷ 0 ∷ bytes_of 7

parse_op_msg_command-returns_example :
    returns any_value (parse_op_msg_command byte_documents command_body) ≡ true
parse_op_msg_command-returns_example = parse_op_msg_command-returns byte_documents command_body

command_parsed : parse_op_msg_command byte_documents command_body ≡ ok 7
unfolding parse_op_msg_command sections_of read_sections read_section parse_document slice byte_at
    read_u32 read_i32 read_length take drop
command_parsed = refl

-- a second command is an error
second_command :
    parse_op_msg_command byte_documents (command_body ++ (0 ∷ bytes_of 8)) ≡ err several_commands
unfolding parse_op_msg_command sections_of read_sections read_section parse_document slice byte_at
    read_u32 read_i32 read_length take drop
second_command = refl

abbrev response : List ℕ × ℤ
response = (26 ∷ 0 ∷ 0 ∷ 0 ∷ 3 ∷ 0 ∷ 0 ∷ 0 ∷ 9 ∷ 0 ∷ 0 ∷ 0 ∷ 221 ∷ 7 ∷ 0 ∷ 0 ∷ command_body, pos 4)

response_encoded : encode_op_msg_response byte_documents (pos 3) (pos 9) 7 ≡ ok response
unfolding encode_op_msg_response
response_encoded = refl

receive-encode_op_msg_response_example :
    (receive byte_documents (response.0 ++ (1 ∷ 2 ∷ []))
      ≡ ok (
          some (
            record { message_length = 26; request_id = pos 3; op_code = pos 2013 },
            (7, 1 ∷ 2 ∷ []),
          )))
    × ((slice response.0 8 12 >>= read_i32) ≡ ok (pos 9))
    × (is_i32 (pos 4) ≡ true)
receive-encode_op_msg_response_example =
    receive-encode_op_msg_response byte_documents byte_documents-IsBson 7 (bytes_of 7) refl
      (omega arith) (pos 3) (pos 9) (1 ∷ 2 ∷ []) response refl refl response_encoded

-- a command is answered with itself
abbrev echo : ℕ → Option ℕ
echo command = some command

handle_connection-returns_example :
    returns any_value (Served.ending (handle_connection byte_documents echo 30 (pos 1) response.0))
    ≡ true
handle_connection-returns_example =
    handle_connection-returns byte_documents echo 30 (pos 1) response.0 (omega arith)
