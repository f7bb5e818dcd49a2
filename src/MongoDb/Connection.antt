-- ===== src/MongoDb/Connection.antt =====
-- A connection of query_server/src/mongodb_wire_protocol.rs: its loop over the messages of a stream,
-- of which each takes bytes of the stream.
use powdrr_engine.Common.{
  ℕ, zero, suc, ◌+◌, ◌-◌, ◌<◌, ◌≤◌, ◌≡◌, refl, Bool, true, ◌&&◌, Option, none, some, List, [], ◌∷◌,
  ◌++◌, ltb, leb, length, ◌==◌, nat_eq, arith,
}
use powdrr_engine.Common.Int.{ℤ}
use powdrr_engine.MongoDb.Wire.{
  WireError, Outcome, ok, err, panicked, unfinished, ◌>>=◌, check, ok_or, Bson, MessageHeader,
  slice, read_i32, read_length, read_exact, read_message_header, parse_op_msg_command,
  encode_op_msg_response, receive, response_invalid, shorter_than_header, unexpected_eof,
  unsupported_opcode, header_ended_early, is_op_msg,
}
use powdrr_engine.MongoDb.Bounds.{
  returns, returns->>=, returns-check, returns-ok_or, any_value, slice-within, read_i32-returns,
  read_length-returns, parse_op_msg_command-returns,
}

-- so many bytes were read, and the rest is left
abbrev is_split : ℕ → List ℕ → List ℕ × List ℕ → Bool
is_split n stream read = length read.0 == n && length read.1 + n == length stream

read_exact-splits :
    (ended : WireError) (n : ℕ) (stream : List ℕ)
    → returns (is_split n stream) (read_exact ended n stream) ≡ true
unfolding read_exact
read_exact-splits ended zero stream = ground arith
read_exact-splits ended (suc n) [] = refl
read_exact-splits ended (suc n) (b ∷ stream) =
    returns->>= (is_split n stream) (is_split (suc n) (b ∷ stream)) (read_exact ended n stream) _
      (read_exact-splits ended n stream) (λ read h. ground arith)

-- what is left after a message is shorter than the stream was
abbrev shorter : {A : Type 0} → (A → List ℕ) → List ℕ → Option A → Bool
shorter left stream none = true
shorter left stream (some a) = ltb (length (left a)) (length stream)

integer_at :
    {A : Type 0} (bytes : List ℕ) (from to : ℕ) (read : List ℕ → Outcome A)
    → ((raw : List ℕ) → returns any_value (read raw) ≡ true)
    → from ≤ to
    → to ≤ length bytes
    → returns any_value (slice bytes from to >>= read) ≡ true
integer_at bytes from to read k h w =
    returns->>= any_value any_value (slice bytes from to) read (slice-within bytes from to h w)
      (λ raw _. k raw)

read_message_header-shorter :
    (stream : List ℕ) → returns (shorter (λ a. a.1) stream) (read_message_header stream) ≡ true
unfolding read_message_header
read_message_header-shorter [] = refl
read_message_header-shorter (b ∷ stream) =
    returns->>= (is_split 16 (b ∷ stream)) (shorter (λ a. a.1) (b ∷ stream))
      (read_exact header_ended_early 16 (b ∷ stream)) _
      (read_exact-splits header_ended_early 16 (b ∷ stream))
      (λ read h.
        returns->>= any_value (shorter (λ a. a.1) (b ∷ stream)) (slice read.0 0 4 >>= read_length) _
          (integer_at read.0 0 4 read_length read_length-returns (omega arith) (ground arith))
          (λ message_length _.
            returns->>= any_value (shorter (λ a. a.1) (b ∷ stream)) (slice read.0 4 8 >>= read_i32)
              _ (integer_at read.0 4 8 read_i32 read_i32-returns (omega arith) (ground arith))
              (λ request_id _.
                returns->>= any_value (shorter (λ a. a.1) (b ∷ stream))
                  (slice read.0 12 16 >>= read_i32) _
                  (integer_at read.0 12 16 read_i32 read_i32-returns (omega arith) (ground arith))
                  (λ op_code _. ground arith))))

module _ (B : Bson) where
  -- what a connection does: the bytes that it writes, and how it ends
  pub record Served : Type 0 where
    pub written : List ℕ
    pub ending : Outcome (Unit {0})

  abbrev pub write_all : List ℕ → Served → Served
  write_all bytes served = record { written = bytes ++ served.written; ending = served.ending }

  abbrev pub ended : {A : Type 0} → Outcome A → (A → Served) → Served
  ended (ok a) k = k a
  ended (err e) k = record { written = []; ending = err e }
  ended panicked k = record { written = []; ending = panicked }
  ended unfinished k = record { written = []; ending = unfinished }

  -- The answer to one message, and what `next` does after it. `execute` stands for
  -- `execute_mongodb_command_value`, on the database that the command names, and for the conversions
  -- of the command to JSON and of its response to BSON, which can fail.
  abbrev pub answer :
      (B.Document → Option B.Document)
      → ℤ
      → (ℤ → List ℕ → Served)
      → Option (MessageHeader × (B.Document × List ℕ))
      → Served
  answer execute counter next none = record { written = []; ending = ok tt }
  answer execute counter next (some (header, (command, rest))) =
      ended (ok_or response_invalid (execute command)) (λ document.
        ended (encode_op_msg_response B counter header.request_id document)
          (λ response. write_all response.0 (next response.1 rest)))

  unfoldable pub handle_connection : (B.Document → Option B.Document) → ℕ → ℤ → List ℕ → Served
  handle_connection execute zero counter stream = record { written = []; ending = unfinished }
  handle_connection execute (suc fuel) counter stream =
      ended (receive B stream) (answer execute counter (handle_connection execute fuel))

  receive-shorter :
      (stream : List ℕ) → returns (shorter (λ a. a.1.1) stream) (receive B stream) ≡ true
  unfolding receive
  receive-shorter stream =
      returns->>= (shorter (λ a. a.1) stream) (shorter (λ a. a.1.1) stream)
        (read_message_header stream) _ (read_message_header-shorter stream) body_read
    where
      body_read :
          (read : Option (MessageHeader × List ℕ))
          → shorter (λ a. a.1) stream read ≡ true
          → returns
              (shorter (λ a. a.1.1) stream)
              (elim read as (λ _. Outcome (Option (MessageHeader × (B.Document × List ℕ)))) [
                | none ↦ ok none
                | some (header, rest) ↦ check (leb 16 header.message_length) shorter_than_header (
                    read_exact unexpected_eof (header.message_length - 16) rest >>= λ body.
                    check (is_op_msg header.op_code) unsupported_opcode (
                      parse_op_msg_command B body.0 >>= λ command.
                      ok (some (header, (command, body.1)))))
              ])
            ≡ true
      body_read none h = refl
      body_read (some (header, rest)) h =
          returns-check (shorter (λ a. a.1.1) stream) (leb 16 header.message_length)
            shorter_than_header _
            (λ _.
              returns->>= (is_split (header.message_length - 16) rest) (shorter (λ a. a.1.1) stream)
                (read_exact unexpected_eof (header.message_length - 16) rest) _
                (read_exact-splits unexpected_eof (header.message_length - 16) rest)
                (λ body split.
                  returns-check (shorter (λ a. a.1.1) stream) (is_op_msg header.op_code)
                    unsupported_opcode _
                    (λ _.
                      returns->>= any_value (shorter (λ a. a.1.1) stream)
                        (parse_op_msg_command B body.0)
                        (λ command. ok (some (header, (command, body.1))))
                        (parse_op_msg_command-returns B body.0) (λ command _. ground arith))))

  -- a connection ends if each of its parts does
  ended-returns :
      {A : Type 0} (p : A → Bool) (m : Outcome A) (k : A → Served)
      → returns p m ≡ true
      → ((a : A) → p a ≡ true → returns any_value (Served.ending (k a)) ≡ true)
      → returns any_value (Served.ending (ended m k)) ≡ true
  ended-returns p (ok a) k h r = r a h
  ended-returns p (err e) k h r = refl
  ended-returns p panicked k h r = ground arith
  ended-returns p unfinished k h r = ground arith

  encode_op_msg_response-returns :
      (counter response_to : ℤ) (d : B.Document)
      → returns any_value (encode_op_msg_response B counter response_to d) ≡ true
  unfolding encode_op_msg_response
  encode_op_msg_response-returns counter response_to d =
      returns->>= any_value any_value (ok_or response_invalid (B.to_vec d)) _
        (returns-ok_or response_invalid (B.to_vec d)) (λ bytes _. refl)

  answer-returns :
      (execute : B.Document → Option B.Document) (counter : ℤ) (stream : List ℕ)
      (next : ℤ → List ℕ → Served)
      → ((after : ℤ) (rest : List ℕ)
          → length rest < length stream
          → returns any_value (Served.ending (next after rest)) ≡ true)
      → (received : Option (MessageHeader × (B.Document × List ℕ)))
      → shorter (λ a. a.1.1) stream received ≡ true
      → returns any_value (Served.ending (answer execute counter next received)) ≡ true
  answer-returns execute counter stream next k none s = refl
  answer-returns execute counter stream next k (some (header, (command, rest))) s =
      ended-returns any_value (ok_or response_invalid (execute command)) _
        (returns-ok_or response_invalid (execute command))
        (λ document _.
          ended-returns any_value (encode_op_msg_response B counter header.request_id document) _
            (encode_op_msg_response-returns counter header.request_id document)
            (λ response _. k response.1 rest (ground arith)))

  -- Whatever the bytes of the stream, and whatever a command answers, the loop of a connection ends,
  -- with the end of the stream or with an error, after at most as many turns as there are bytes and
  -- one.
  pub handle_connection-returns :
      (execute : B.Document → Option B.Document) (fuel : ℕ) (counter : ℤ) (stream : List ℕ)
      → length stream < fuel
      → returns any_value (Served.ending (handle_connection execute fuel counter stream)) ≡ true
  unfolding handle_connection
  handle_connection-returns execute zero counter stream h = absurd (omega arith)
  handle_connection-returns execute (suc fuel) counter stream h =
      ended-returns (shorter (λ a. a.1.1) stream) (receive B stream) _ (receive-shorter stream) (
        answer-returns execute counter stream (handle_connection execute fuel)
          (λ after rest s. handle_connection-returns execute fuel after rest (omega (arith, h, s))))
