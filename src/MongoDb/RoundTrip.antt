-- ===== src/MongoDb/RoundTrip.antt =====
-- A message that query_server/src/mongodb_wire_protocol.rs writes is read again.
use powdrr_engine.Common.{
  ℕ, suc, ◌+◌, ◌-◌, ◌<◌, ◌≤◌, ◌%◌, ◌≡◌, refl, ◌∙◌, sym, ap, subst, Bool, true, false, Option, none,
  some, List, [], ◌∷◌, ◌++◌, ◌&&◌, ltb, leb, length, arith,
}
use powdrr_engine.Common.Int.{ℤ, pos, negsuc}
use powdrr_engine.MongoDb.Bytes.{
  take, drop, to_le_bytes, to_bits, of_bits, from_le_bytes-to_le_bytes, take-length,
}
use powdrr_engine.MongoDb.Wire.{
  ◌>>=◌, WireError, Outcome, ok, check, Bson, MessageHeader, op_msg, slice, byte_at, read_u32,
  read_i32, read_length, read_exact, read_message_header, parse_document, read_section,
  read_sections, sections_of, parse_op_msg_command, encode_op_msg_response, receive, unexpected_eof,
}

-- what the format of BSON says of the bytes of a document: they begin with their length, there are at
-- least five, and decoding them gives the document
pub record IsBson (B : Bson) : Type 0 where
  pub begins :
      (d : B.Document) (bytes : List ℕ)
      → B.to_vec d ≡ some bytes
      → take 4 bytes ≡ to_le_bytes (length bytes)
  pub at_least : (d : B.Document) (bytes : List ℕ) → B.to_vec d ≡ some bytes → 5 ≤ length bytes
  pub decodes :
      (d : B.Document) (bytes : List ℕ) → B.to_vec d ≡ some bytes → B.from_slice bytes ≡ some d

abbrev pub is_i32 : ℤ → Bool
is_i32 (pos n) = ltb n 2147483648
is_i32 (negsuc n) = ltb n 2147483648

read_i32-to_le_bytes : (z : ℤ) → is_i32 z ≡ true → read_i32 (to_le_bytes (to_bits z)) ≡ ok z
unfolding read_i32
read_i32-to_le_bytes (pos n) h =
    rw (from_le_bytes-to_le_bytes (n % 4294967296) (omega arith)) (ground arith)
read_i32-to_le_bytes (negsuc n) h =
    rw (from_le_bytes-to_le_bytes (4294967295 - n % 4294967296) (omega arith)) (ground arith)

read_length-to_le_bytes : (n : ℕ) → n < 2147483648 → read_length (to_le_bytes n) ≡ ok n
unfolding read_length read_i32
read_length-to_le_bytes n h = rw (from_le_bytes-to_le_bytes n (omega arith)) (ground arith)

read_exact-append :
    (ended : WireError) (bytes rest : List ℕ)
    → read_exact ended (length bytes) (bytes ++ rest) ≡ ok (bytes, rest)
unfolding read_exact
read_exact-append ended [] rest = refl
read_exact-append ended (b ∷ bytes) rest = rw (read_exact-append ended bytes rest) refl

check_lem :
    {A : Type 0} (test : Bool) (e : WireError) (m : Outcome A) → test ≡ true → check test e m ≡ m
check_lem true e m h = refl
check_lem false e m h = ground arith

slice_lem :
    (xs : List ℕ) (from to : ℕ)
    → from ≤ to
    → to ≤ length xs
    → slice xs from to ≡ ok (take (to - from) (drop from xs))
unfolding slice
slice_lem xs from to h k = ground arith

read_sections-outside :
    (B : Bson) (fuel : ℕ) (xs : List ℕ) (offset : ℕ) (command : Option B.Document)
    → length xs ≤ offset
    → read_sections B (suc fuel) xs offset command ≡ ok command
unfolding read_sections
read_sections-outside B fuel xs offset command h = ground arith

read_sections-inside :
    (B : Bson) (fuel : ℕ) (xs : List ℕ) (offset : ℕ) (command : Option B.Document)
    (next : ℕ × Option B.Document)
    → offset < length xs
    → read_section B xs offset command ≡ ok next
    → read_sections B (suc fuel) xs offset command ≡ read_sections B fuel xs next.0 next.1
unfolding read_sections
read_sections-inside B fuel xs offset command next h e = rw (inside, e) refl
  where
    inside : ltb offset (length xs) ≡ true
    inside = ground arith

module _ (B : Bson) (bson : IsBson B) (d : B.Document) (bytes : List ℕ)
    (encoded : B.to_vec d ≡ some bytes) (small : length bytes < 2147483627) where
  length_at_one : slice (0 ∷ bytes) 1 5 ≡ ok (to_le_bytes (length bytes))
  unfolding drop
  length_at_one =
      slice_lem (0 ∷ bytes) 1 5 (omega arith) (omega (arith, bson.at_least d bytes encoded))
      ∙ ap (λ xs. ok xs) (bson.begins d bytes encoded)

  document_at_one : slice (0 ∷ bytes) 1 (1 + length bytes) ≡ ok bytes
  unfolding drop
  document_at_one =
      slice_lem (0 ∷ bytes) 1 (1 + length bytes) (omega arith) (omega arith)
      ∙ ap (λ n. ok (take n bytes)) (the_length (length bytes))
      ∙ ap (λ xs. ok xs) (take-length bytes)
    where
      the_length : (n : ℕ) → 1 + n - 1 ≡ n
      the_length n = omega arith

  parse_document-to_vec : parse_document B (0 ∷ bytes) 1 ≡ ok (d, 1 + length bytes)
  unfolding parse_document
  parse_document-to_vec =
      check_lem (leb 5 (length (0 ∷ bytes))) _ _ (ground (arith, bson.at_least d bytes encoded))
      ∙ rw (length_at_one, read_length-to_le_bytes (length bytes) (omega arith))
          (check_lem (leb 5 (length bytes) && leb (1 + length bytes) (length (0 ∷ bytes))) _ _
              (ground (arith, bson.at_least d bytes encoded))
            ∙ rw (document_at_one, bson.decodes d bytes encoded) refl)

  read_section-to_vec : read_section B (0 ∷ bytes) 0 none ≡ ok (1 + length bytes, some d)
  unfolding read_section byte_at
  read_section-to_vec = rw parse_document-to_vec refl

  read_sections-to_vec : read_sections B (suc (length (0 ∷ bytes))) (0 ∷ bytes) 0 none ≡ ok (some d)
  read_sections-to_vec =
      read_sections-inside B (length (0 ∷ bytes)) (0 ∷ bytes) 0 none (1 + length bytes, some d)
        (omega arith) read_section-to_vec
      ∙ read_sections-outside B (length bytes) (0 ∷ bytes) (1 + length bytes) (some d) (omega arith)

  sections_of-to_vec : sections_of (to_le_bytes 0 ++ (0 ∷ bytes)) ≡ ok (0 ∷ bytes)
  unfolding sections_of take drop read_u32
  sections_of-to_vec =
      rw
        (
          slice_lem (to_le_bytes 0 ++ (0 ∷ bytes)) 0 4 (omega arith) (omega arith),
          slice_lem (to_le_bytes 0 ++ (0 ∷ bytes)) 4 (length (to_le_bytes 0 ++ (0 ∷ bytes)))
              (omega arith) (omega arith),
        )
        (ap (λ n. ok (take n (0 ∷ bytes))) (the_length (length bytes))
          ∙ ap (λ xs. ok xs) (take-length (0 ∷ bytes)))
    where
      the_length : (n : ℕ) → suc (suc (suc (suc (suc n)))) - 4 ≡ suc n
      the_length n = omega arith

  parse_op_msg_command-to_vec : parse_op_msg_command B (to_le_bytes 0 ++ (0 ∷ bytes)) ≡ ok d
  unfolding parse_op_msg_command
  parse_op_msg_command-to_vec =
      check_lem (leb 5 (length (to_le_bytes 0 ++ (0 ∷ bytes)))) _ _ (ground arith)
      ∙ rw (sections_of-to_vec, read_sections-to_vec) refl

  abbrev body : List ℕ
  body = to_le_bytes 0 ++ (0 ∷ bytes)

  -- a message with its four header fields
  abbrev message : ℕ → ℕ → ℕ → List ℕ → List ℕ
  message size id to rest =
      to_le_bytes size
      ++ (to_le_bytes id ++ (to_le_bytes to ++ (to_le_bytes (to_bits op_msg) ++ rest)))

  read_message_header-message :
      (size to : ℕ) (id : ℤ) (rest : List ℕ)
      → size < 2147483648
      → is_i32 id ≡ true
      → read_message_header (message size (to_bits id) to rest)
        ≡ ok (some (record { message_length = size; request_id = id; op_code = op_msg }, rest))
  unfolding read_message_header read_exact slice take drop
  read_message_header-message size to id rest h k =
      rw
        (
          read_length-to_le_bytes size h,
          read_i32-to_le_bytes id k,
          read_i32-to_le_bytes op_msg refl,
        )
        refl

  abbrev header : ℤ → MessageHeader
  header id = record { message_length = 16 + length body; request_id = id; op_code = op_msg }

  encode_op_msg_response_lem :
      (counter response_to : ℤ)
      → encode_op_msg_response B counter response_to d
        ≡ ok (
          message (16 + length body) (to_bits counter) (to_bits response_to) body,
          of_bits ((to_bits counter + 1) % 4294967296),
        )
  unfolding encode_op_msg_response
  encode_op_msg_response_lem counter response_to = rw encoded (
      ap
        (λ n. ok (
          message n (to_bits counter) (to_bits response_to) body,
          of_bits ((to_bits counter + 1) % 4294967296),
        ))
        fits)
    where
      fits : (16 + length body) % 4294967296 ≡ 16 + length body
      fits = omega arith

  body-append :
      (rest : List ℕ)
      → read_exact unexpected_eof (16 + length body - 16) (body ++ rest) ≡ ok (body, rest)
  body-append rest = rw (the_length (length body)) (read_exact-append unexpected_eof body rest)
    where
      the_length : (n : ℕ) → 16 + n - 16 ≡ n
      the_length n = omega arith

  receive-message :
      (to : ℕ) (id : ℤ) (rest : List ℕ)
      → is_i32 id ≡ true
      → receive B (message (16 + length body) (to_bits id) to (body ++ rest))
        ≡ ok (some (header id, (d, rest)))
  unfolding receive
  receive-message to id rest h =
      rw (read_message_header-message (16 + length body) to id (body ++ rest) (omega arith) h) (
        check_lem (leb 16 (16 + length body)) _ _ (ground arith)
        ∙ rw (body-append rest, parse_op_msg_command-to_vec) refl)

  is_i32-of_bits : (n : ℕ) → n < 4294967296 → is_i32 (of_bits n) ≡ true
  is_i32-of_bits n h = ground arith

  answered :
      (size id : ℕ) (response_to : ℤ) (rest : List ℕ)
      → is_i32 response_to ≡ true
      → (slice (message size id (to_bits response_to) rest) 8 12 >>= read_i32) ≡ ok response_to
  unfolding take drop
  answered size id response_to rest h =
      rw (slice_lem (message size id (to_bits response_to) rest) 8 12 (omega arith) (omega arith))
        (read_i32-to_le_bytes response_to h)

  -- A response that is written for a document of less than 2 ^ 31 - 21 bytes is read again, whatever
  -- comes after it: with the id that the counter had, and the same document. Its bytes from 8 to 12 are
  -- the id of the request that it answers. The counter is an `i32` also after it, so that the next
  -- response is written too.
  pub receive-encode_op_msg_response :
      (counter response_to : ℤ) (rest : List ℕ) (written : List ℕ × ℤ)
      → is_i32 counter ≡ true
      → is_i32 response_to ≡ true
      → encode_op_msg_response B counter response_to d ≡ ok written
      → (receive B (written.0 ++ rest) ≡ ok (some (header counter, (d, rest))))
        × ((slice written.0 8 12 >>= read_i32) ≡ ok response_to)
        × (is_i32 written.1 ≡ true)
  receive-encode_op_msg_response counter response_to rest written h k e =
      subst
        (λ w.
          (receive B (w.0 ++ rest) ≡ ok (some (header counter, (d, rest))))
          × ((slice w.0 8 12 >>= read_i32) ≡ ok response_to)
          × (is_i32 w.1 ≡ true))
        (same_message (sym (encode_op_msg_response_lem counter response_to) ∙ e))
        (
          receive-message (to_bits response_to) counter rest h,
          answered (16 + length body) (to_bits counter) response_to body k,
          is_i32-of_bits ((to_bits counter + 1) % 4294967296) (omega arith),
        )
    where
      same_message : {v w : List ℕ × ℤ} → ok v ≡ ok w → v ≡ w
      same_message p = cc
