-- ===== src/DynamoDb/Error.antt =====
-- The errors of query_server/src/dynamodb_protocol.rs, `DynamoDbError`, by their kind: their messages
-- are not modelled.
use powdrr_engine.Common.{◌≡◌, refl, Option, none, some, arith}

pub data DynamoDbError : Type 0 where
  validation internal conditional_check_failed : DynamoDbError

pub data Result (A : Type 0) : Type 0 where
  ok : A → Result A
  err : DynamoDbError → Result A

infixl 5 ◌>>=◌ ◌>>◌
abbrev pub ◌>>=◌ : {A B : Type 0} → Result A → (A → Result B) → Result B
ok a >>= f = f a
err e >>= f = err e

abbrev pub ◌>>◌ : {B : Type 0} → Result (Unit {0}) → Result B → Result B
m >> k = m >>= λ _. k

-- `ok_or_else`
abbrev pub ok_or : {A : Type 0} → DynamoDbError → Option A → Result A
ok_or e none = err e
ok_or e (some a) = ok a

-- `map(...).unwrap_or(...)` on a result
abbrev pub result_or : {A B : Type 0} → B → (A → B) → Result A → B
result_or d f (ok a) = f a
result_or d f (err e) = d

-- A chain that succeeds succeeds in both of its parts.
pub then_lem :
    {A B : Type 0} (m : Result A) (f : A → Result B) (b : B)
    → m >>= f ≡ ok b
    → {C : Type 0} → ((a : A) → m ≡ ok a → f a ≡ ok b → C)
    → C
then_lem (ok a) f b h k = k a refl h
then_lem (err e) f b h k = ground arith

pub ok_same : {A : Type 0} (a b : A) → ok a ≡ ok b → a ≡ b
ok_same a b h = cc
