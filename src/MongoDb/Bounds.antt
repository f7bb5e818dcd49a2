-- ===== src/MongoDb/Bounds.antt =====
-- No message makes the parser of query_server/src/mongodb_wire_protocol.rs read outside the bytes
-- that there are, or loop.
use powdrr_engine.Common.{
  ℕ, zero, suc, ◌+◌, ◌-◌, ◌%◌, ◌<◌, ◌≤◌, ◌≡◌, refl, Bool, true, false, ◌&&◌, not, Bool-cases, inl,
  inr, Option, none, some, List, [], ◌∷◌, if◌then◌else◌, ltb, leb, length, get_elem?-some, ◌==◌,
  nat_eq, is_some, arith,
}
use powdrr_engine.Common.Int.{ℤ, pos, negsuc}
use powdrr_engine.MongoDb.Wire.{
  WireError, Outcome, ok, err, panicked, unfinished, ◌>>=◌, check, ok_or, Bson, slice, byte_at,
  read_u32, read_i32, as_usize, read_length, parse_document, skip_sequence, read_section,
  read_sections, sections_of, parse_op_msg_command, section_size_invalid, document_length_invalid,
  document_invalid, several_commands, checksum_truncated, body_too_short, no_command,
}

-- the code returned, with what the test asks of the value
abbrev pub returns : {A : Type 0} → (A → Bool) → Outcome A → Bool
returns test (ok a) = test a
returns test (err e) = true
returns test panicked = false
returns test unfinished = false

pub returns->>= :
    {A B : Type 0} (p : A → Bool) (q : B → Bool) (m : Outcome A) (f : A → Outcome B)
    → returns p m ≡ true
    → ((a : A) → p a ≡ true → returns q (f a) ≡ true)
    → returns q (m >>= f) ≡ true
returns->>= p q (ok a) f h k = k a h
returns->>= p q (err e) f h k = refl
returns->>= p q panicked f h k = ground arith
returns->>= p q unfinished f h k = ground arith

pub returns-check :
    {B : Type 0} (q : B → Bool) (test : Bool) (e : WireError) (m : Outcome B)
    → (test ≡ true → returns q m ≡ true)
    → returns q (check test e m) ≡ true
returns-check q true e m k = k refl
returns-check q false e m k = refl

pub returns-ok_or :
    {A : Type 0} (e : WireError) (o : Option A) → returns (λ _. true) (ok_or e o) ≡ true
returns-ok_or e none = refl
returns-ok_or e (some a) = refl

returns-if :
    {B : Type 0} (q : B → Bool) (test : Bool) (m n : Outcome B)
    → returns q m ≡ true
    → returns q n ≡ true
    → returns q (if test then m else n) ≡ true
returns-if q true m n h k = h
returns-if q false m n h k = k

abbrev pub any_value : {A : Type 0} → A → Bool
any_value a = true

pub slice-within :
    (bytes : List ℕ) (from to : ℕ)
    → from ≤ to
    → to ≤ length bytes
    → returns any_value (slice bytes from to) ≡ true
unfolding slice
slice-within bytes from to a b = ground arith

byte_at-within :
    (bytes : List ℕ) (index : ℕ)
    → index < length bytes
    → returns any_value (byte_at bytes index) ≡ true
unfolding byte_at
byte_at-within bytes index h = rw (returns, (get_elem?-some bytes index h).1) refl

read_u32-returns : (bytes : List ℕ) → returns any_value (read_u32 bytes) ≡ true
unfolding read_u32
read_u32-returns [] = refl
read_u32-returns (a ∷ []) = refl
read_u32-returns (a ∷ b ∷ []) = refl
read_u32-returns (a ∷ b ∷ c ∷ []) = refl
read_u32-returns (a ∷ b ∷ c ∷ d ∷ []) = refl
read_u32-returns (a ∷ b ∷ c ∷ d ∷ e ∷ bytes) = refl

pub read_i32-returns : (bytes : List ℕ) → returns any_value (read_i32 bytes) ≡ true
unfolding read_i32
read_i32-returns [] = refl
read_i32-returns (a ∷ []) = refl
read_i32-returns (a ∷ b ∷ []) = refl
read_i32-returns (a ∷ b ∷ c ∷ []) = refl
read_i32-returns (a ∷ b ∷ c ∷ d ∷ []) = refl
read_i32-returns (a ∷ b ∷ c ∷ d ∷ e ∷ bytes) = refl

as_usize-returns : (z : ℤ) → returns any_value (as_usize z) ≡ true
as_usize-returns (pos n) = refl
as_usize-returns (negsuc n) = refl

pub read_length-returns : (bytes : List ℕ) → returns any_value (read_length bytes) ≡ true
unfolding read_length
read_length-returns bytes =
    returns->>= any_value any_value (read_i32 bytes) as_usize (read_i32-returns bytes)
      (λ z h. as_usize-returns z)

-- a length read from the four bytes at an offset
length_at-returns :
    (bytes : List ℕ) (offset : ℕ)
    → offset + 4 ≤ length bytes
    → returns any_value (slice bytes offset (offset + 4) >>= read_length) ≡ true
length_at-returns bytes offset h =
    returns->>= any_value any_value (slice bytes offset (offset + 4)) read_length
      (slice-within bytes offset (offset + 4) (omega arith) h) (λ raw _. read_length-returns raw)

-- the offset moves forward and stays within the sections
abbrev advances : ℕ → List ℕ → ℕ → Bool
advances offset sections next = ltb offset next && leb next (length sections)

skip_sequence-advances :
    (sections : List ℕ) (offset : ℕ)
    → returns (advances offset sections) (skip_sequence sections offset) ≡ true
skip_sequence-advances sections offset =
    returns-check (advances offset sections) (leb (offset + 4) (length sections)) _ _ (λ fits.
      returns->>= any_value (advances offset sections)
        (slice sections offset (offset + 4) >>= read_length) _
        (length_at-returns sections offset (ground arith))
        (λ size _.
          returns-check (advances offset sections)
            (leb 4 size && leb (offset + size) (length sections)) section_size_invalid
            (ok (offset + size)) (λ within. ground arith)))

module _ (B : Bson) where
  abbrev parsed_advances : ℕ → List ℕ → B.Document × ℕ → Bool
  parsed_advances offset sections parsed = advances offset sections parsed.1

  parse_document-advances :
      (sections : List ℕ) (offset : ℕ)
      → returns (parsed_advances offset sections) (parse_document B sections offset) ≡ true
  unfolding parse_document
  parse_document-advances sections offset =
      returns-check (parsed_advances offset sections) (leb (offset + 4) (length sections)) _ _
        (λ fits.
          returns->>= any_value (parsed_advances offset sections)
            (slice sections offset (offset + 4) >>= read_length) _
            (length_at-returns sections offset (ground arith))
            (λ size _.
              returns-check (parsed_advances offset sections)
                (leb 5 size && leb (offset + size) (length sections)) document_length_invalid _
                (λ within.
                  returns->>= any_value (parsed_advances offset sections)
                    (slice sections offset (offset + size)) _
                    (slice-within sections offset (offset + size) (omega arith) (ground arith))
                    (λ bytes _.
                      returns->>= any_value (parsed_advances offset sections)
                        (ok_or document_invalid (B.from_slice bytes))
                        (λ document. ok (document, offset + size))
                        (returns-ok_or document_invalid (B.from_slice bytes))
                        (λ document _. ground arith)))))

  abbrev section_advances : ℕ → List ℕ → ℕ × Option B.Document → Bool
  section_advances offset sections next = advances offset sections next.0

  read_section-advances :
      (sections : List ℕ) (offset : ℕ) (command : Option B.Document)
      → offset < length sections
      → returns (section_advances offset sections) (read_section B sections offset command) ≡ true
  unfolding read_section
  read_section-advances sections offset command h =
      returns->>= any_value (section_advances offset sections) (byte_at sections offset) _
        (byte_at-within sections offset h)
        (λ payload_type _.
          returns-if (section_advances offset sections) (payload_type == 0) _ _
            (returns->>= (parsed_advances (offset + 1) sections) (section_advances offset sections)
              (parse_document B sections (offset + 1)) _
              (parse_document-advances sections (offset + 1))
              (λ parsed a.
                returns-check (section_advances offset sections) (not (is_some command))
                  several_commands (ok (parsed.1, some parsed.0)) (λ _. ground arith)))
            (returns-if (section_advances offset sections) (payload_type == 1) _ _
              (returns->>= (advances (offset + 1) sections) (section_advances offset sections)
                (skip_sequence sections (offset + 1)) (λ next. ok (next, command))
                (skip_sequence-advances sections (offset + 1)) (λ next a. ground arith))
              refl))

  read_sections-returns :
      (fuel : ℕ) (sections : List ℕ) (offset : ℕ) (command : Option B.Document)
      → length sections < offset + fuel
      → offset ≤ length sections
      → returns any_value (read_sections B fuel sections offset command) ≡ true
  unfolding read_sections
  read_sections-returns zero sections offset command h w = absurd (omega arith)
  read_sections-returns (suc fuel) sections offset command h w =
      elim (Bool-cases (ltb offset (length sections))) [
        | inl inside ↦ rw (inside) (
            returns->>= (section_advances offset sections) any_value
              (read_section B sections offset command) _
              (read_section-advances sections offset command (ground arith))
              (λ next a.
                read_sections-returns fuel sections next.0 next.1 (ground arith) (ground arith)))
        | inr outside ↦ rw (outside) refl
      ]

sections_of-returns :
    (body : List ℕ) → 5 ≤ length body → returns any_value (sections_of body) ≡ true
unfolding sections_of
sections_of-returns body h =
    returns->>= any_value any_value (slice body 0 4 >>= read_u32) _
      (returns->>= any_value any_value (slice body 0 4) read_u32
        (slice-within body 0 4 (omega arith) (omega arith)) (λ raw _. read_u32-returns raw))
      (λ flag_bits _.
        returns->>= any_value any_value (slice body 4 (length body)) _
          (slice-within body 4 (length body) (omega arith) (omega arith))
          (λ sections _.
            returns-if any_value (flag_bits % 2 == 1) _ (ok sections)
              (returns-check any_value (leb 4 (length sections)) checksum_truncated
                (slice sections 0 (length sections - 4))
                (λ fits. slice-within sections 0 (length sections - 4) (omega arith) (omega arith)))
              refl))

-- The parser returns a command or an error on every body, of any bytes and any length: no slice that
-- it takes is outside the body, and the loop over the sections ends.
pub parse_op_msg_command-returns :
    (B : Bson) (body : List ℕ) → returns any_value (parse_op_msg_command B body) ≡ true
unfolding parse_op_msg_command
parse_op_msg_command-returns B body =
    returns-check any_value (leb 5 (length body)) body_too_short _ (λ long.
      returns->>= any_value any_value (sections_of body) _ (sections_of-returns body (ground arith))
        (λ sections _.
          returns->>= any_value any_value (read_sections B (suc (length sections)) sections 0 none)
            (ok_or no_command)
            (read_sections-returns B (suc (length sections)) sections 0 none (omega arith)
              (omega arith))
            (λ command _. returns-ok_or no_command command)))
