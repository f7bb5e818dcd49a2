-- ===== src/Redis/Wire.antt =====
-- query_server/src/redis_wire_protocol.rs: the encoding of replies and the reading of commands.
-- A stream is the list of the bytes that the peer sends before it closes.
use powdrr_engine.Common.{
  ℕ, zero, suc, ◌+◌, ◌*◌, ◌&&◌, ◌||◌, Option, none, some, List, [], ◌∷◌, ◌++◌, if◌then◌else◌, ◌==◌,
  leb, nat_eq, option_map, length,
}
use powdrr_engine.Common.Int.{ℤ, pos, negsuc}
use powdrr_engine.Redis.Text.{decimal, decimal_ℤ, parse_i64, valid_utf8, split_whitespace, i64_max}

mutual
  pub data RespValue : Type 0 where
    simple_string : List ℕ → RespValue
    bulk_string : List ℕ → RespValue
    null_bulk_string : RespValue
    integer : ℤ → RespValue
    array : RespValues → RespValue

  pub data RespValues : Type 0 where
    nil : RespValues
    cons : RespValue → RespValues → RespValues

abbrev pub length_values : RespValues → ℕ
length_values nil = 0
length_values (cons value values) = suc (length_values values)

abbrev pub crlf : List ℕ
crlf = 13 ∷ 10 ∷ []

unfoldable mutual
  pub encode_resp_value : RespValue → List ℕ
  encode_resp_value (simple_string text) = 43 ∷ text ++ crlf
  encode_resp_value (bulk_string bytes) = 36 ∷ decimal (length bytes) ++ crlf ++ bytes ++ crlf
  encode_resp_value null_bulk_string = 36 ∷ 45 ∷ 49 ∷ crlf
  encode_resp_value (integer value) = 58 ∷ decimal_ℤ value ++ crlf
  encode_resp_value (array items) =
      42 ∷ decimal (length_values items) ++ crlf ++ encode_resp_values items

  pub encode_resp_values : RespValues → List ℕ
  encode_resp_values nil = []
  encode_resp_values (cons item items) = encode_resp_value item ++ encode_resp_values items

-- the errors, one constructor for each message; `read_exact` fails at the end of the stream
pub data WireError : Type 0 where
  prefix_empty : WireError
  item_header_ended : WireError
  item_header_empty : WireError
  unsupported_prefix : ℕ → WireError
  bulk_not_terminated : WireError
  bulk_not_utf8 : WireError
  line_not_terminated : WireError
  line_not_utf8 : WireError
  length_invalid : WireError
  length_negative : WireError
  unexpected_eof : WireError

-- what reading gives: a value and the rest of the stream, an error, or a panic
pub data Outcome (A : Type 0) : Type 0 where
  ok : A → List ℕ → Outcome A
  err : WireError → Outcome A
  panicked : Outcome A

infixl 5 ◌>>=◌
abbrev pub ◌>>=◌ : {A B : Type 0} → Outcome A → (A × List ℕ → Outcome B) → Outcome B
ok a stream >>= f = f (a, stream)
err e >>= f = err e
panicked >>= f = panicked

-- the bytes up to the first line feed, which is included, and those after it
unfoldable pub read_until : List ℕ → List ℕ × List ℕ
read_until [] = ([], [])
read_until (b ∷ bs) =
    let rest = read_until bs in if b == 10 then (b ∷ [], bs) else (b ∷ rest.0, rest.1)

-- the bytes without the CRLF that they end with
unfoldable pub strip_crlf : List ℕ → Option (List ℕ)
strip_crlf [] = none
strip_crlf (a ∷ []) = none
strip_crlf (a ∷ b ∷ []) = if a == 13 && b == 10 then some [] else none
strip_crlf (a ∷ b ∷ c ∷ bs) = option_map (λ line. a ∷ line) (strip_crlf (b ∷ c ∷ bs))

abbrev pub line_of : List ℕ → List ℕ → Outcome (Option (List ℕ))
line_of [] stream = ok none stream
line_of (b ∷ bs) stream = elim (strip_crlf (b ∷ bs)) [
  | none ↦ err line_not_terminated
  | some line ↦ if valid_utf8 line then ok (some line) stream else err line_not_utf8
]

unfoldable pub read_line : List ℕ → Outcome (Option (List ℕ))
read_line stream = let read = read_until stream in line_of read.0 read.1

unfoldable pub parse_length : List ℕ → List ℕ → Outcome ℕ
parse_length raw stream = elim (parse_i64 raw) [
  | none ↦ err length_invalid
  | some value ↦ elim value [ negsuc n ↦ err length_negative | pos n ↦ ok n stream ]
]

unfoldable pub read_exact : ℕ → List ℕ → Outcome (List ℕ)
read_exact zero stream = ok [] stream
read_exact (suc n) [] = err unexpected_eof
read_exact (suc n) (b ∷ stream) = read_exact n stream >>= λ r. ok (b ∷ r.0) r.1

-- A vector of more than `isize::MAX` bytes is a panic, "capacity overflow".
abbrev with_capacity : {A : Type 0} → ℕ → Outcome A → Outcome A
with_capacity bytes k = if leb bytes i64_max then k else panicked

abbrev pub payload_of : List ℕ → List ℕ → Outcome (List ℕ)
payload_of payload stream = elim (strip_crlf payload) [
  | none ↦ err bulk_not_terminated
  | some bytes ↦ if valid_utf8 bytes then ok bytes stream else err bulk_not_utf8
]

unfoldable pub read_bulk_string : List ℕ → List ℕ → Outcome (List ℕ)
read_bulk_string length_text stream = parse_length length_text stream >>= λ r.
    with_capacity (r.0 + 2) (read_exact (r.0 + 2) r.1 >>= λ p. payload_of p.0 p.1)

abbrev pub read_item : Option (List ℕ) → List ℕ → Outcome (List ℕ)
read_item none stream = err item_header_ended
read_item (some []) stream = err item_header_empty
read_item (some (prefix ∷ text)) stream =
    if prefix == 36
    then read_bulk_string text stream
    else if prefix == 43 || prefix == 58
    then ok text stream
    else err (unsupported_prefix prefix)

unfoldable pub read_items : ℕ → List ℕ → Outcome (List (List ℕ))
read_items zero stream = ok [] stream
read_items (suc n) stream = read_line stream >>= λ header. read_item header.0 header.1 >>= λ item.
    read_items n item.1 >>= λ items. ok (item.0 ∷ items.0) items.1

-- A `String` takes 24 bytes, which `Vec::with_capacity` reserves for each item.
unfoldable pub parse_array_command : List ℕ → List ℕ → Outcome (List (List ℕ))
parse_array_command length_text stream = parse_length length_text stream >>= λ count.
    with_capacity (count.0 * 24) (read_items count.0 count.1)

abbrev command_of : Option (List ℕ) → List ℕ → Outcome (Option (List (List ℕ)))
command_of none stream = ok none stream
command_of (some []) stream = err prefix_empty
command_of (some (prefix ∷ text)) stream =
    if prefix == 42
    then (parse_array_command text stream >>= λ items. ok (some items.0) items.1)
    else ok (some (split_whitespace (prefix ∷ text))) stream

unfoldable pub read_command : List ℕ → Outcome (Option (List (List ℕ)))
read_command stream = read_line stream >>= λ line. command_of line.0 line.1
