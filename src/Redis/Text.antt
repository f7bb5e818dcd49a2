-- ===== src/Redis/Text.antt =====
-- What query_server/src/redis_wire_protocol.rs uses of Rust's standard library: a `String` is its
-- UTF-8 bytes; the decimal format of integers, `str::parse::<i64>`, `String::from_utf8` and
-- `split_whitespace`.
use powdrr_engine.Common.{
  ℕ, zero, suc, ◌+◌, ◌-◌, ◌*◌, ◌/◌, ◌%◌, Bool, true, false, ◌&&◌, ◌||◌, Option, none, some, List,
  [], ◌∷◌, ◌++◌, if◌then◌else◌, ◌==◌, ltb, leb, nat_eq,
}
use powdrr_engine.Common.Int.{ℤ, pos, negsuc}

abbrev in_range : ℕ → ℕ → ℕ → Bool
in_range lo hi b = leb lo b && leb b hi

abbrev pub is_digit : ℕ → Bool
is_digit b = in_range 48 57 b

-- The decimal digits of a number: `digits k n` writes the last k + 1 of them, without leading
-- zeros, and the twenty of `decimal` are all the digits of a `u64`.
unfoldable pub digits : ℕ → ℕ → List ℕ
digits zero n = (48 + n % 10) ∷ []
digits (suc k) n =
    let rest = digits k (n / 10) in if ltb n 10 then (48 + n) ∷ [] else rest ++ ((48 + n % 10) ∷ [])

unfoldable pub decimal : ℕ → List ℕ
decimal n = digits 19 n

unfoldable pub decimal_ℤ : ℤ → List ℕ
decimal_ℤ (pos n) = decimal n
decimal_ℤ (negsuc n) = 45 ∷ decimal (suc n)

unfoldable pub parse_digits : ℕ → List ℕ → Option ℕ
parse_digits acc [] = some acc
parse_digits acc (b ∷ bs) =
    let rest = parse_digits (acc * 10 + (b - 48)) bs in if is_digit b then rest else none

abbrev pub i64_max : ℕ
i64_max = 9223372036854775807

abbrev pub checked_pos : ℕ → Option ℤ
checked_pos n = if leb n i64_max then some (pos n) else none

abbrev checked_neg : ℕ → Option ℤ
checked_neg zero = some (pos 0)
checked_neg (suc n) = if leb n i64_max then some (negsuc n) else none

abbrev bind_ℤ : Option ℕ → (ℕ → Option ℤ) → Option ℤ
bind_ℤ none f = none
bind_ℤ (some n) f = f n

abbrev pub parse_unsigned : (ℕ → Option ℤ) → List ℕ → Option ℤ
parse_unsigned f [] = none
parse_unsigned f (b ∷ bs) = bind_ℤ (parse_digits 0 (b ∷ bs)) f

-- An optional sign, then one digit or more; what is out of the range of `i64` is an error.
unfoldable pub parse_i64 : List ℕ → Option ℤ
parse_i64 [] = none
parse_i64 (b ∷ bs) =
    if b == 43
    then parse_unsigned checked_pos bs
    else if b == 45
    then parse_unsigned checked_neg bs
    else parse_unsigned checked_pos (b ∷ bs)

-- the ranges of the bytes that follow the first byte of a character; `none` where none begins so
abbrev continuation : ℕ → Option (List (ℕ × ℕ))
continuation b =
    if ltb b 128
    then some []
    else if in_range 194 223 b
    then some ((128, 191) ∷ [])
    else if b == 224
    then some ((160, 191) ∷ (128, 191) ∷ [])
    else if b == 237
    then some ((128, 159) ∷ (128, 191) ∷ [])
    else if in_range 225 239 b
    then some ((128, 191) ∷ (128, 191) ∷ [])
    else if b == 240
    then some ((144, 191) ∷ (128, 191) ∷ (128, 191) ∷ [])
    else if in_range 241 243 b
    then some ((128, 191) ∷ (128, 191) ∷ (128, 191) ∷ [])
    else if b == 244
    then some ((128, 143) ∷ (128, 191) ∷ (128, 191) ∷ [])
    else none

unfoldable pub utf8_from : List (ℕ × ℕ) → List ℕ → Bool
utf8_from [] [] = true
utf8_from (r ∷ rs) [] = false
utf8_from [] (b ∷ bs) = elim (continuation b) [ none ↦ false | some rs ↦ utf8_from rs bs ]
utf8_from (r ∷ rs) (b ∷ bs) = in_range r.0 r.1 b && utf8_from rs bs

unfoldable pub valid_utf8 : List ℕ → Bool
valid_utf8 bytes = utf8_from [] bytes

-- how many bytes the white space takes that the text begins with, 0 if it begins with none
abbrev white_space : List ℕ → ℕ
white_space [] = 0
white_space (a ∷ []) = if in_range 9 13 a || a == 32 then 1 else 0
white_space (a ∷ b ∷ []) =
    if in_range 9 13 a || a == 32 then 1 else if a == 194 && (b == 133 || b == 160) then 2 else 0
white_space (a ∷ b ∷ c ∷ rest) =
    if in_range 9 13 a || a == 32
    then 1
    else if a == 194 && (b == 133 || b == 160)
    then 2
    else if a == 225 && b == 154 && c == 128
    then 3
    else if a == 226 && b == 128 && (in_range 128 138 c || c == 168 || c == 169 || c == 175)
    then 3
    else if a == 226 && b == 129 && c == 159
    then 3
    else if a == 227 && b == 128 && c == 128
    then 3
    else 0

abbrev push_part : List ℕ → List (List ℕ) → List (List ℕ)
push_part [] parts = parts
push_part (b ∷ bs) parts = (b ∷ bs) ∷ parts

-- `split_from k part bytes`: k bytes of white space are still to be passed, `part` was read
unfoldable pub split_from : ℕ → List ℕ → List ℕ → List (List ℕ)
split_from k part [] = push_part part []
split_from (suc k) part (b ∷ bs) = split_from k part bs
split_from zero part (b ∷ bs) = elim (white_space (b ∷ bs)) [
  | zero ↦ split_from zero (part ++ (b ∷ [])) bs
  | suc k ↦ push_part part (split_from k [] bs)
]

unfoldable pub split_whitespace : List ℕ → List (List ℕ)
split_whitespace bytes = split_from 0 [] bytes
