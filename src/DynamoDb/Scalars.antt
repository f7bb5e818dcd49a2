-- ===== src/DynamoDb/Scalars.antt =====
-- Unicode scalar values and texts as their lists, for query_server/src/dynamodb_protocol.rs:
-- `std::char::from_u32`, `str::chars` and its inverse, and `next_scalar`.
use Prim.Native.Nat.{Ordering, compare as compare_ℕ}
use Prim.Native.Char.{Char, char, code, IsLt, IsScalar}
use Prim.Native.String.{String}
use powdrr_engine.Common.{
  ℕ, ◌+◌, ◌<◌, ◌≤◌, ◌≡◌, ◌⊎◌, inl, inr, refl, Option, none, some, List, [], ◌∷◌, if◌then◌else◌,
  ◌==◌, nat_eq, arith, Bool-cases,
}

-- the clauses of `IsScalar n`, whose helpers are private to its module
abbrev BothLt : Ordering → Ordering → Type 0
BothLt Ordering.lt o = IsLt o
BothLt Ordering.eq _ = ⊥
BothLt Ordering.gt _ = ⊥

abbrev ScalarBy : Ordering → Ordering → Ordering → Type 0
ScalarBy Ordering.lt _ _ = Unit
ScalarBy Ordering.eq o p = BothLt o p
ScalarBy Ordering.gt o p = BothLt o p

scalar_char : (n : ℕ) (o p q : Ordering) → (ScalarBy o p q → IsScalar n) → Option Char
scalar_char n Ordering.lt p q f = some (char n (f tt))
scalar_char n Ordering.eq Ordering.lt Ordering.lt f = some (char n (f tt))
scalar_char n Ordering.gt Ordering.lt Ordering.lt f = some (char n (f tt))
scalar_char n o p q f = none

unfoldable pub from_u32 : ℕ → Option Char
unfolding scalar_char
from_u32 n = scalar_char n (compare_ℕ n 55296) (compare_ℕ 57343 n) (compare_ℕ n 1114112) (λ s. s)

unfoldable pub next_scalar : Char → Option Char
next_scalar value =
    if code value == 1114111
    then none
    else if code value == 55295
    then from_u32 57344
    else from_u32 (code value + 1)

abbrev pub chars : String → List Char
chars String.[] = []
chars (String.◌∷◌ c s) = c ∷ chars s

abbrev pub of_chars : List Char → String
of_chars [] = String.[]
of_chars (c ∷ cs) = String.◌∷◌ c (of_chars cs)

ScalarBy-range :
    (n : ℕ) (o p q : Ordering)
    → compare_ℕ n 55296 ≡ o
    → compare_ℕ 57343 n ≡ p
    → compare_ℕ n 1114112 ≡ q
    → ScalarBy o p q
    → (n < 55296) ⊎ ((57343 < n) × (n < 1114112))
ScalarBy-range n Ordering.lt p q e f g s = inl (ground arith)
ScalarBy-range n Ordering.eq Ordering.lt Ordering.lt e f g s = inr (ground arith, ground arith)
ScalarBy-range n Ordering.gt Ordering.lt Ordering.lt e f g s = inr (ground arith, ground arith)
ScalarBy-range n Ordering.eq Ordering.lt Ordering.eq e f g s = absurd s
ScalarBy-range n Ordering.eq Ordering.lt Ordering.gt e f g s = absurd s
ScalarBy-range n Ordering.gt Ordering.lt Ordering.eq e f g s = absurd s
ScalarBy-range n Ordering.gt Ordering.lt Ordering.gt e f g s = absurd s
ScalarBy-range n Ordering.eq Ordering.eq q e f g s = absurd s
ScalarBy-range n Ordering.eq Ordering.gt q e f g s = absurd s
ScalarBy-range n Ordering.gt Ordering.eq q e f g s = absurd s
ScalarBy-range n Ordering.gt Ordering.gt q e f g s = absurd s

pub code_range : (c : Char) → (code c < 55296) ⊎ ((57343 < code c) × (code c < 1114112))
code_range (char n s) =
    ScalarBy-range n (compare_ℕ n 55296) (compare_ℕ 57343 n) (compare_ℕ n 1114112) refl refl refl s

-- the code point of what `from_u32` returns; it fails only outside the ScalarBy values
abbrev pub Returned : ℕ → Option Char → Type 0
Returned n none = (55295 < n) × ((n < 57344) ⊎ (1114111 < n))
Returned n (some c) = code c ≡ n

scalar_char-Returned :
    (n : ℕ) (o p q : Ordering) (f : ScalarBy o p q → IsScalar n)
    → compare_ℕ n 55296 ≡ o
    → compare_ℕ 57343 n ≡ p
    → compare_ℕ n 1114112 ≡ q
    → Returned n (scalar_char n o p q f)
unfolding scalar_char
scalar_char-Returned n Ordering.lt p q f d e g = refl
scalar_char-Returned n Ordering.eq Ordering.lt Ordering.lt f d e g = refl
scalar_char-Returned n Ordering.gt Ordering.lt Ordering.lt f d e g = refl
scalar_char-Returned n Ordering.eq Ordering.lt Ordering.eq f d e g =
    (ground arith, inr (ground arith))
scalar_char-Returned n Ordering.eq Ordering.lt Ordering.gt f d e g =
    (ground arith, inr (ground arith))
scalar_char-Returned n Ordering.gt Ordering.lt Ordering.eq f d e g =
    (ground arith, inr (ground arith))
scalar_char-Returned n Ordering.gt Ordering.lt Ordering.gt f d e g =
    (ground arith, inr (ground arith))
scalar_char-Returned n Ordering.eq Ordering.eq q f d e g = (ground arith, inl (ground arith))
scalar_char-Returned n Ordering.eq Ordering.gt q f d e g = (ground arith, inl (ground arith))
scalar_char-Returned n Ordering.gt Ordering.eq q f d e g = (ground arith, inl (ground arith))
scalar_char-Returned n Ordering.gt Ordering.gt q f d e g = (ground arith, inl (ground arith))

pub from_u32-Returned : (n : ℕ) → Returned n (from_u32 n)
unfolding from_u32
from_u32-Returned n =
    scalar_char-Returned n (compare_ℕ n 55296) (compare_ℕ 57343 n) (compare_ℕ n 1114112) (λ s. s)
      refl refl refl

-- the least ScalarBy value above the given one, if there is one
abbrev pub IsNext : Char → Option Char → Type 0
IsNext c none = (d : Char) → code d ≤ code c
IsNext c (some n) = (code c < code n) × ((d : Char) → code c < code d → code n ≤ code d)

IsNext-of :
    (c : Char) (n : ℕ) (o : Option Char)
    → Returned n o
    → (n < 55296) ⊎ ((57343 < n) × (n < 1114112))
    → code c < n
    → ((d : Char) → code c < code d → n ≤ code d)
    → IsNext c o
IsNext-of c n none r s l f = absurd (ground arith)
IsNext-of c n (some m) r s l f = (ground arith, λ d h. ground (arith, f d h))

pub next_scalar-IsNext : (c : Char) → IsNext c (next_scalar c)
unfolding next_scalar
next_scalar-IsNext c = elim (Bool-cases (code c == 1114111)) [
  | inl last ↦ rw (next_scalar, last) (λ d. ground (arith, code_range d))
  | inr more ↦ elim (Bool-cases (code c == 55295)) [
    | inl gap ↦
        rw (next_scalar, more, gap)
          (IsNext-of c 57344 (from_u32 57344) (from_u32-Returned 57344) (inr (omega arith))
            (ground arith) (λ d h. ground (arith, code_range d)))
    | inr step ↦
        rw (next_scalar, more, step)
          (IsNext-of c (code c + 1) (from_u32 (code c + 1)) (from_u32-Returned (code c + 1))
            (ground (arith, code_range c)) (omega arith) (λ d h. omega arith))
  ]
]

pub of_chars-chars : (s : String) → of_chars (chars s) ≡ s
of_chars-chars String.[] = refl
of_chars-chars (String.◌∷◌ c s) = rw (of_chars-chars s) refl
