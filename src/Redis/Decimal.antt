-- ===== src/Redis/Decimal.antt =====
-- Numbers of query_server/src/redis_wire_protocol.rs, written in decimal and read again.
use powdrr_engine.Common.{
  ℕ, zero, suc, ◌+◌, ◌-◌, ◌*◌, ◌/◌, ◌%◌, ◌<◌, ◌≤◌, ◌≡◌, refl, ◌∙◌, true, false, some, List, [], ◌∷◌,
  ◌++◌, ◌==◌, nat_eq, all, all-append, all-contains, ◌≢◌, arith, contains,
}
use powdrr_engine.Common.Int.{pos}
use powdrr_engine.Redis.Text.{
  digits, decimal, parse_digits, parse_i64, parse_unsigned, checked_pos, is_digit, i64_max,
  utf8_from, valid_utf8,
}

append-nonempty : (xs : List ℕ) (x : ℕ) → xs ++ (x ∷ []) ≢ []
append-nonempty [] x = λ e. cc
append-nonempty (y ∷ xs) x = λ e. cc

-- 10 ^ (k + 1), the numbers that k + 1 digits write
abbrev bound : ℕ → ℕ
bound zero = 10
bound (suc k) = bound k * 10

parse_digits-append :
    (acc : ℕ) (bs : List ℕ) (n b : ℕ)
    → parse_digits acc bs ≡ some n
    → is_digit b ≡ true
    → parse_digits acc (bs ++ (b ∷ [])) ≡ some (n * 10 + (b - 48))
unfolding parse_digits
parse_digits-append acc [] n b h d = ground arith
parse_digits-append acc (a ∷ bs) n b h d =
    ground (arith, parse_digits-append (acc * 10 + (a - 48)) bs n b)

is_digit_of : (n : ℕ) → n < 10 → is_digit (48 + n) ≡ true
is_digit_of n h = ground arith

all-digits : (k n : ℕ) → all is_digit (digits k n) ≡ true
unfolding digits
all-digits zero n = ground (arith, is_digit_of (n % 10))
all-digits (suc k) n = ground (
  arith,
  is_digit_of (n % 10),
  is_digit_of n,
  all-digits k (n / 10),
  all-append is_digit (digits k (n / 10)) ((48 + n % 10) ∷ []),
)

parse_digits-digits : (k n : ℕ) → n < bound k → parse_digits 0 (digits k n) ≡ some n
unfolding digits parse_digits
parse_digits-digits zero n h = ground (arith, is_digit_of (n % 10))
parse_digits-digits (suc k) n h = ground (
  arith,
  is_digit_of n,
  is_digit_of (n % 10),
  parse_digits-digits k (n / 10),
  parse_digits-append 0 (digits k (n / 10)) (n / 10) (48 + n % 10),
)

parse_i64-unsigned :
    (b : ℕ) (bs : List ℕ)
    → is_digit b ≡ true
    → parse_i64 (b ∷ bs) ≡ parse_unsigned checked_pos (b ∷ bs)
unfolding parse_i64
parse_i64-unsigned b bs d = rw (the_sign_is_not 43 refl, the_sign_is_not 45 refl) refl
  where
    the_sign_is_not : (sign : ℕ) → is_digit sign ≡ false → (b == sign) ≡ false
    the_sign_is_not sign e = ground arith

parse_i64_lem :
    (bs : List ℕ) (n : ℕ)
    → bs ≢ []
    → all is_digit bs ≡ true
    → parse_digits 0 bs ≡ some n
    → n ≤ i64_max
    → parse_i64 bs ≡ some (pos n)
parse_i64_lem [] n e d h l = absurd (e refl)
parse_i64_lem (b ∷ bs) n e d h l = rw (parse_i64-unsigned b bs (ground arith), h) (ground arith)

digits-nonempty : (k n : ℕ) → digits k n ≢ []
unfolding digits
digits-nonempty zero n = λ e. cc
digits-nonempty (suc k) n = λ e. ground (arith, append-nonempty (digits k (n / 10)) (48 + n % 10))

pub parse_i64-decimal : (n : ℕ) → n ≤ i64_max → parse_i64 (decimal n) ≡ some (pos n)
unfolding decimal
parse_i64-decimal n l =
    parse_i64_lem (digits 19 n) n (digits-nonempty 19 n) (all-digits 19 n)
      (parse_digits-digits 19 n (omega arith)) l

-- the text of a number has no line feed
pub decimal-no_line_feed : (n : ℕ) → contains (decimal n) 10 ≡ false
unfolding decimal
decimal-no_line_feed n = ground (arith, all-contains is_digit (digits 19 n) 10, all-digits 19 n)

utf8_from-ascii : (b : ℕ) (bs : List ℕ) → b < 128 → utf8_from [] (b ∷ bs) ≡ utf8_from [] bs
unfolding utf8_from
utf8_from-ascii b bs l = ground arith

-- a text of digits is ASCII
utf8-digits : (bs : List ℕ) → all is_digit bs ≡ true → utf8_from [] bs ≡ true
unfolding utf8_from
utf8-digits [] d = refl
utf8-digits (b ∷ bs) d = utf8_from-ascii b bs (ground arith) ∙ utf8-digits bs (ground arith)

pub valid_utf8-decimal : (b n : ℕ) → b < 128 → valid_utf8 (b ∷ decimal n) ≡ true
unfolding valid_utf8 decimal
valid_utf8-decimal b n l =
    utf8_from-ascii b (digits 19 n) l ∙ utf8-digits (digits 19 n) (all-digits 19 n)
