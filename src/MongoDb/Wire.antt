-- ===== src/MongoDb/Wire.antt =====
-- query_server/src/mongodb_wire_protocol.rs: how a connection reads messages and answers them. A slice
-- outside the bytes there are is a panic. The `bson` crate is a parameter, and so is what a command
-- does.
use powdrr_engine.Common.{
  ℕ, zero, suc, ◌+◌, ◌-◌, ◌%◌, ◌==◌, nat_eq, Bool, true, false, ◌&&◌, not, Option, none, some, List,
  [], ◌∷◌, ◌++◌, if◌then◌else◌, ltb, leb, length, get_elem?, is_some,
}
use powdrr_engine.Common.Int.{ℤ, pos, negsuc}
use powdrr_engine.MongoDb.Bytes.{take, drop, to_le_bytes, from_le_bytes, to_bits, of_bits}

-- the errors, one constructor for each message
pub data WireError : Type 0 where
  shorter_than_header unsupported_opcode header_ended_early body_too_short : WireError
  checksum_truncated several_commands section_truncated section_size_invalid : WireError
  unsupported_payload no_command length_truncated document_length_invalid : WireError
  document_invalid response_invalid integer_truncated negative_length unexpected_eof : WireError

-- a value, an error, a panic, or a loop that has not ended
pub data Outcome (A : Type 0) : Type 0 where
  ok : A → Outcome A
  err : WireError → Outcome A
  panicked unfinished : Outcome A

infixl 5 ◌>>=◌
abbrev pub ◌>>=◌ : {A B : Type 0} → Outcome A → (A → Outcome B) → Outcome B
ok a >>= f = f a
err e >>= f = err e
panicked >>= f = panicked
unfinished >>= f = unfinished

-- `return Err` unless the test holds
abbrev pub check : {A : Type 0} → Bool → WireError → Outcome A → Outcome A
check true e k = k
check false e k = err e

abbrev pub ok_or : {A : Type 0} → WireError → Option A → Outcome A
ok_or e none = err e
ok_or e (some a) = ok a

-- the documents of the `bson` crate
pub record Bson : Type 1 where
  pub Document : Type 0
  pub from_slice : List ℕ → Option Document
  pub to_vec : Document → Option (List ℕ)

pub record MessageHeader : Type 0 where
  pub message_length : ℕ
  pub request_id : ℤ
  pub op_code : ℤ

abbrev pub op_msg : ℤ
op_msg = pos 2013

abbrev pub is_op_msg : ℤ → Bool
is_op_msg (pos n) = n == 2013
is_op_msg (negsuc n) = false

-- `&bytes[from..to]` and `bytes[index]`
unfoldable pub slice : List ℕ → ℕ → ℕ → Outcome (List ℕ)
slice bytes from to =
    if leb from to && leb to (length bytes)
    then ok (take (to - from) (drop from bytes))
    else panicked

unfoldable pub byte_at : List ℕ → ℕ → Outcome ℕ
byte_at bytes index = elim (get_elem? bytes index) [ none ↦ panicked | some b ↦ ok b ]

unfoldable pub read_u32 : List ℕ → Outcome ℕ
read_u32 (a ∷ b ∷ c ∷ d ∷ []) = ok (from_le_bytes a b c d)
read_u32 _ = err integer_truncated

unfoldable pub read_i32 : List ℕ → Outcome ℤ
read_i32 (a ∷ b ∷ c ∷ d ∷ []) = ok (of_bits (from_le_bytes a b c d))
read_i32 _ = err integer_truncated

abbrev pub as_usize : ℤ → Outcome ℕ
as_usize (pos n) = ok n
as_usize (negsuc n) = err negative_length

unfoldable pub read_length : List ℕ → Outcome ℕ
read_length bytes = read_i32 bytes >>= as_usize

-- `fetch_add` on the counter of the responses: the id, and the counter after it
abbrev pub next_response_id : ℤ → ℤ × ℤ
next_response_id counter = (counter, of_bits ((to_bits counter + 1) % 4294967296))

-- `read_exact`, and the reads of a header until it is full: the bytes, and the rest of the stream
unfoldable pub read_exact : WireError → ℕ → List ℕ → Outcome (List ℕ × List ℕ)
read_exact ended zero stream = ok ([], stream)
read_exact ended (suc n) [] = err ended
read_exact ended (suc n) (b ∷ stream) = read_exact ended n stream >>= λ r. ok (b ∷ r.0, r.1)

unfoldable pub read_message_header : List ℕ → Outcome (Option (MessageHeader × List ℕ))
read_message_header [] = ok none
read_message_header (b ∷ stream) = read_exact header_ended_early 16 (b ∷ stream) >>= λ read.
    slice read.0 0 4 >>= read_length >>= λ message_length.
    slice read.0 4 8 >>= read_i32 >>= λ request_id. slice read.0 12 16 >>= read_i32 >>= λ op_code.
    ok (
      some (
        record { message_length = message_length; request_id = request_id; op_code = op_code },
        read.1,
      ))

abbrev pub skip_sequence : List ℕ → ℕ → Outcome ℕ
skip_sequence sections offset = check (leb (offset + 4) (length sections)) section_truncated (
    slice sections offset (offset + 4) >>= read_length >>= λ sequence_size.
    check (leb 4 sequence_size && leb (offset + sequence_size) (length sections))
      section_size_invalid (ok (offset + sequence_size)))

-- the sections of a body, without the checksum that its flags declare
unfoldable pub sections_of : List ℕ → Outcome (List ℕ)
sections_of body = slice body 0 4 >>= read_u32 >>= λ flag_bits.
    slice body 4 (length body) >>= λ sections.
    if flag_bits % 2 == 1
    then check (leb 4 (length sections)) checksum_truncated (slice sections 0 (length sections - 4))
    else ok sections

module _ (B : Bson) where
  -- the document at an offset, and the offset after it
  unfoldable pub parse_document : List ℕ → ℕ → Outcome (B.Document × ℕ)
  parse_document sections offset = check (leb (offset + 4) (length sections)) length_truncated (
      slice sections offset (offset + 4) >>= read_length >>= λ document_length.
      check (leb 5 document_length && leb (offset + document_length) (length sections))
        document_length_invalid
        (slice sections offset (offset + document_length) >>= λ bytes.
          ok_or document_invalid (B.from_slice bytes) >>= λ document.
          ok (document, offset + document_length)))

  -- one turn of the loop over the sections: the offset and the command after it
  unfoldable pub read_section : List ℕ → ℕ → Option B.Document → Outcome (ℕ × Option B.Document)
  read_section sections offset command = byte_at sections offset >>= λ payload_type.
      if payload_type == 0
      then (parse_document sections (offset + 1) >>= λ parsed.
          check (not (is_some command)) several_commands (ok (parsed.1, some parsed.0)))
      else if payload_type == 1
      then (skip_sequence sections (offset + 1) >>= λ next. ok (next, command))
      else err unsupported_payload

  unfoldable pub read_sections : ℕ → List ℕ → ℕ → Option B.Document → Outcome (Option B.Document)
  read_sections zero sections offset command = unfinished
  read_sections (suc fuel) sections offset command =
      if ltb offset (length sections)
      then (read_section sections offset command >>= λ next.
          read_sections fuel sections next.0 next.1)
      else ok command

  unfoldable pub parse_op_msg_command : List ℕ → Outcome B.Document
  parse_op_msg_command body = check (leb 5 (length body)) body_too_short (
      sections_of body >>= λ sections.
      read_sections (suc (length sections)) sections 0 none >>= ok_or no_command)

  -- the message, and the counter of the responses after it
  unfoldable pub encode_op_msg_response : ℤ → ℤ → B.Document → Outcome (List ℕ × ℤ)
  encode_op_msg_response counter response_to document =
      ok_or response_invalid (B.to_vec document) >>= λ bytes.
      let body = to_le_bytes 0 ++ (0 ∷ bytes) in
      let response_id = next_response_id counter in
      ok (
        to_le_bytes ((16 + length body) % 4294967296)
            ++ (to_le_bytes (to_bits response_id.0)
                ++ (to_le_bytes (to_bits response_to) ++ (to_le_bytes (to_bits op_msg) ++ body))),
        response_id.1,
      )

  -- what a connection reads of one message: the header, the command, and the rest of the stream
  unfoldable pub receive : List ℕ → Outcome (Option (MessageHeader × (B.Document × List ℕ)))
  receive stream = read_message_header stream >>= λ read. elim read [
    | none ↦ ok none
    | some (header, rest) ↦ check (leb 16 header.message_length) shorter_than_header (
        read_exact unexpected_eof (header.message_length - 16) rest >>= λ body.
        check (is_op_msg header.op_code) unsupported_opcode
          (parse_op_msg_command body.0 >>= λ command. ok (some (header, (command, body.1)))))
  ]
