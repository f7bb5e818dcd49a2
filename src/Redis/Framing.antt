-- ===== src/Redis/Framing.antt =====
-- Lines, lengths and payloads of query_server/src/redis_wire_protocol.rs, read where they stand at
-- the head of a stream.
use powdrr_engine.Common.{
  ℕ, ◌+◌, ◌<◌, ◌≤◌, ◌≡◌, refl, true, false, some, List, [], ◌∷◌, ◌++◌, ◌==◌, leb, nat_eq, arith,
  contains, length, length-append,
}
use powdrr_engine.Redis.Text.{decimal, i64_max, valid_utf8}
use powdrr_engine.Redis.Wire.{
  crlf, ok, read_until, strip_crlf, read_line, parse_length, read_exact, read_bulk_string, line_of,
  payload_of,
}
use powdrr_engine.Redis.Decimal.{parse_i64-decimal, decimal-no_line_feed, valid_utf8-decimal}

pub append_assoc : (xs ys zs : List ℕ) → (xs ++ ys) ++ zs ≡ xs ++ (ys ++ zs)
append_assoc [] ys zs = refl
append_assoc (x ∷ xs) ys zs = rw (append_assoc xs ys zs) refl

read_until-line :
    (line rest : List ℕ)
    → contains line 10 ≡ false
    → read_until (line ++ (crlf ++ rest)) ≡ (line ++ crlf, rest)
unfolding read_until
read_until-line [] rest h = refl
read_until-line (b ∷ line) rest h =
    rw (not_line_feed, read_until-line line rest (ground arith)) refl
  where
    not_line_feed : (b == 10) ≡ false
    not_line_feed = ground arith

strip_crlf-append : (line : List ℕ) → strip_crlf (line ++ crlf) ≡ some line
unfolding strip_crlf
strip_crlf-append [] = refl
strip_crlf-append (a ∷ []) = refl
strip_crlf-append (a ∷ b ∷ []) = refl
strip_crlf-append (a ∷ b ∷ c ∷ line) = rw (strip_crlf-append (b ∷ c ∷ line)) refl

line_of_lem :
    (b : ℕ) (bs line rest : List ℕ)
    → strip_crlf (b ∷ bs) ≡ some line
    → valid_utf8 line ≡ true
    → line_of (b ∷ bs) rest ≡ ok (some line) rest
line_of_lem b bs line rest e v = rw (line_of, e, v) refl

line_of-append :
    (line rest : List ℕ)
    → valid_utf8 line ≡ true
    → line_of (line ++ crlf) rest ≡ ok (some line) rest
line_of-append [] rest v = line_of_lem 13 (10 ∷ []) [] rest (strip_crlf-append []) v
line_of-append (b ∷ line) rest v =
    line_of_lem b (line ++ crlf) (b ∷ line) rest (strip_crlf-append (b ∷ line)) v

pub read_line-append :
    (line rest : List ℕ)
    → contains line 10 ≡ false
    → valid_utf8 line ≡ true
    → read_line (line ++ (crlf ++ rest)) ≡ ok (some line) rest
unfolding read_line
read_line-append line rest h v = rw (read_until-line line rest h) (line_of-append line rest v)

-- the header of an array or of a bulk string
pub read_line-header :
    (prefix n : ℕ) (rest : List ℕ)
    → prefix < 128
    → (prefix == 10) ≡ false
    → read_line (prefix ∷ decimal n ++ (crlf ++ rest)) ≡ ok (some (prefix ∷ decimal n)) rest
read_line-header prefix n rest l e =
    read_line-append (prefix ∷ decimal n) rest (ground (arith, decimal-no_line_feed n))
      (valid_utf8-decimal prefix n l)

pub parse_length-decimal :
    (n : ℕ) (rest : List ℕ) → n ≤ i64_max → parse_length (decimal n) rest ≡ ok n rest
unfolding parse_length
parse_length-decimal n rest l = rw (parse_length, parse_i64-decimal n l) refl

read_exact-length :
    (bytes rest : List ℕ) → read_exact (length bytes) (bytes ++ rest) ≡ ok bytes rest
unfolding read_exact
read_exact-length [] rest = refl
read_exact-length (b ∷ bytes) rest = rw (read_exact, read_exact-length bytes rest) refl

read_exact-append :
    (bytes rest : List ℕ)
    → read_exact (length bytes + 2) (bytes ++ (crlf ++ rest)) ≡ ok (bytes ++ crlf) rest
read_exact-append bytes rest =
    rw (← length-append bytes crlf, ← append_assoc bytes crlf rest)
      (read_exact-length (bytes ++ crlf) rest)

payload_of-append :
    (bytes rest : List ℕ)
    → valid_utf8 bytes ≡ true
    → payload_of (bytes ++ crlf) rest ≡ ok bytes rest
payload_of-append bytes rest v = rw (payload_of, strip_crlf-append bytes, v) refl

pub read_bulk_string-decimal :
    (bytes rest : List ℕ)
    → valid_utf8 bytes ≡ true
    → length bytes + 2 ≤ i64_max
    → read_bulk_string (decimal (length bytes)) (bytes ++ (crlf ++ rest)) ≡ ok bytes rest
unfolding read_bulk_string
read_bulk_string-decimal bytes rest v l =
    rw
      (
        parse_length-decimal (length bytes) (bytes ++ (crlf ++ rest)) (omega arith),
        short,
        read_exact-append bytes rest,
      )
      (payload_of-append bytes rest v)
  where
    short : leb (length bytes + 2) i64_max ≡ true
    short = ground arith
