-- ===== src/MongoDb/Bytes.antt =====
-- Slices of bytes and little-endian integers, as query_server/src/mongodb_wire_protocol.rs reads and
-- writes them.
use powdrr_engine.Common.{
  ℕ, zero, suc, ◌+◌, ◌-◌, ◌*◌, ◌/◌, ◌%◌, ◌<◌, ◌≡◌, refl, ap, List, [], ◌∷◌, ◌++◌, if◌then◌else◌,
  ltb, length, arith,
}
use powdrr_engine.Common.Int.{ℤ, pos, negsuc}

-- the first bytes, as many as asked for, and those after them
unfoldable pub take : ℕ → List ℕ → List ℕ
take zero bs = []
take (suc n) [] = []
take (suc n) (b ∷ bs) = b ∷ take n bs

unfoldable pub drop : ℕ → List ℕ → List ℕ
drop zero bs = bs
drop (suc n) [] = []
drop (suc n) (b ∷ bs) = drop n bs

-- `to_le_bytes` and `from_le_bytes` of a `u32`
abbrev pub to_le_bytes : ℕ → List ℕ
to_le_bytes n = n % 256 ∷ n / 256 % 256 ∷ n / 65536 % 256 ∷ n / 16777216 % 256 ∷ []

abbrev pub from_le_bytes : ℕ → ℕ → ℕ → ℕ → ℕ
from_le_bytes a b c d = a + 256 * b + 65536 * c + 16777216 * d

-- the bits of an `i32`, and the `i32` that has them
abbrev pub to_bits : ℤ → ℕ
to_bits (pos n) = n % 4294967296
to_bits (negsuc n) = 4294967295 - n % 4294967296

abbrev pub of_bits : ℕ → ℤ
of_bits n = if ltb n 2147483648 then pos n else negsuc (4294967295 - n)

pub from_le_bytes-to_le_bytes :
    (n : ℕ)
    → n < 4294967296
    → from_le_bytes (n % 256) (n / 256 % 256) (n / 65536 % 256) (n / 16777216 % 256) ≡ n
from_le_bytes-to_le_bytes n h = omega arith

pub take-length : (bs : List ℕ) → take (length bs) bs ≡ bs
unfolding take
take-length [] = refl
take-length (b ∷ bs) = ap (λ xs. b ∷ xs) (take-length bs)

pub take-append : (bs cs : List ℕ) → take (length bs) (bs ++ cs) ≡ bs
unfolding take
take-append [] cs = refl
take-append (b ∷ bs) cs = ap (λ xs. b ∷ xs) (take-append bs cs)

pub drop-append : (bs cs : List ℕ) → drop (length bs) (bs ++ cs) ≡ cs
unfolding drop
drop-append [] cs = refl
drop-append (b ∷ bs) cs = drop-append bs cs
