-- ===== src/DynamoDb/KeyRange/Prefix.antt =====
-- The range that `begins_with_range_predicate` of query_server/src/dynamodb_protocol.rs gives for a
-- prefix.
use Prim.Native.Char.{Char, code}
use Prim.Native.String.{String, compare}
use Prim.Native.String.compare
use mathlib.Core.List.{reverse, reverse-cons, reverse-append}
use powdrr_engine.Common.{
  ◌≡◌, refl, ap, Bool, true, false, ◌&&◌, not, Option, none, some, List, [], ◌∷◌, ◌++◌, arith,
  option_map, Option-cases, inl, inr,
}
use powdrr_engine.Common.Dict.{Dict}
use powdrr_engine.Query.Path.{compare_scalar_values}
use powdrr_engine.Query.Statistics.{value_matches}
use powdrr_engine.Query.Plan.{ServingPredicate, read_predicate, query_predicate}
use powdrr_engine.DynamoDb.Error.{ok}
use powdrr_engine.DynamoDb.Attributes.{lookup_expression_value}
use powdrr_engine.Json.{Floats, Value, string, codes, starts_with, is_lt}
use powdrr_engine.DynamoDb.Scalars.{next_scalar, next_scalar-IsNext, IsNext, chars, of_chars}
use powdrr_engine.DynamoDb.KeyRange.{
  pop_to_next, next_string_prefix_upper_bound, begins_with_range_predicate, no_bounds,
}

-- the bound by recursion from the front: the last character that has a next one takes it
upper_chars : List Char → Option (List Char)
upper_chars [] = none
upper_chars (c ∷ cs) = elim (upper_chars cs) [
  | some upper ↦ some (c ∷ upper)
  | none ↦ option_map (λ next. next ∷ []) (next_scalar c)
]

-- `pop_to_next` with a character before all others
abbrev behind : Char → Option (List Char) → Option (List Char)
behind c (some popped) = some (popped ++ (c ∷ []))
behind c none = option_map (λ next. next ∷ []) (next_scalar c)

pop-append : (c : Char) (cs : List Char) → pop_to_next (cs ++ (c ∷ [])) ≡ behind c (pop_to_next cs)
unfolding pop_to_next
pop-append c [] = refl
pop-append c (d ∷ cs) = elim (Option-cases (next_scalar d)) [
  | inl e ↦ rw (pop_to_next, e) (pop-append c cs)
  | inr (n, e) ↦ rw (pop_to_next, e) refl
]

behind-reverse :
    (c : Char) (o : Option (List Char))
    → option_map reverse (behind c o) ≡ elim (option_map reverse o) as (λ x. Option (List Char)) [
      | some upper ↦ some (c ∷ upper)
      | none ↦ option_map (λ next. next ∷ []) (next_scalar c)
    ]
behind-reverse c (some popped) = ap some (reverse-append popped (c ∷ []))
behind-reverse c none = elim (Option-cases (next_scalar c)) [
  | inl e ↦ rw e refl
  | inr (n, e) ↦ rw e refl
]

pop-upper : (cs : List Char) → option_map reverse (pop_to_next (reverse cs)) ≡ upper_chars cs
unfolding upper_chars pop_to_next
pop-upper [] = refl
pop-upper (c ∷ cs) =
    rw
      (
        reverse-cons c cs,
        pop-append c (reverse cs),
        behind-reverse c (pop_to_next (reverse cs)),
        pop-upper cs,
      )
      refl

-- the text is below the bound, where there is one
abbrev pub below : String → Option (List Char) → Bool
below text none = true
below text (some upper) = is_lt (compare text (of_chars upper))

not_below_empty : (text : String) → is_lt (compare text String.[]) ≡ false
not_below_empty String.[] = refl
not_below_empty (String.◌∷◌ t ts) = ap is_lt (compare.cons-nil t ts)

-- the bound of a text with one more character in front
abbrev in_front : Char → Option (List Char) → Option Char → Option (List Char)
in_front p (some upper) n = some (p ∷ upper)
in_front p none n = option_map (λ next. next ∷ []) n

prefix_step :
    (p t : Char) (ps ts : String) (upper : Option (List Char)) (n : Option Char)
    → IsNext p n
    → starts_with (codes ts) (codes ps) ≡ (not (is_lt (compare ts ps)) && below ts upper)
    → starts_with (code t ∷ codes ts) (code p ∷ codes ps) ≡ (
        not (is_lt (compare (String.◌∷◌ t ts) (String.◌∷◌ p ps)))
        && below (String.◌∷◌ t ts) (in_front p upper n))
prefix_step p t ps ts (some upper) n next ih =
    ground (arith, compare.cons-cons t p ts ps, compare.cons-cons t p ts (of_chars upper))
prefix_step p t ps ts none (some n) next ih = ground (
  arith,
  compare.cons-cons t p ts ps,
  compare.cons-cons t n ts String.[],
  not_below_empty ts,
  next.1 t,
)
prefix_step p t ps ts none none next ih = ground (arith, compare.cons-cons t p ts ps, next t)

upper-in_front :
    (p : Char) (ps : List Char) → upper_chars (p ∷ ps) ≡ in_front p (upper_chars ps) (next_scalar p)
unfolding upper_chars
upper-in_front p ps = elim (Option-cases (upper_chars ps)) [
  | inl e ↦ rw (upper_chars, in_front, e) refl
  | inr (upper, e) ↦ rw (upper_chars, in_front, e) refl
]

prefix_range :
    (prefix text : String)
    → starts_with (codes text) (codes prefix)
      ≡ (not (is_lt (compare text prefix)) && below text (upper_chars (chars prefix)))
unfolding upper_chars
prefix_range String.[] text = rw (not_below_empty text) refl
prefix_range (String.◌∷◌ p ps) String.[] = rw (compare.nil-cons p ps) refl
prefix_range (String.◌∷◌ p ps) (String.◌∷◌ t ts) = rw (upper-in_front p (chars ps)) (
    prefix_step p t ps ts (upper_chars (chars ps)) (next_scalar p) (next_scalar-IsNext p)
      (prefix_range ps ts))

next_upper :
    (prefix : String)
    → next_string_prefix_upper_bound prefix ≡ option_map of_chars (upper_chars (chars prefix))
unfolding next_string_prefix_upper_bound
next_upper prefix = rw (← pop-upper (chars prefix)) (compose (pop_to_next (reverse (chars prefix))))
  where
    compose :
        (o : Option (List Char))
        → option_map (λ cs. of_chars (reverse cs)) o ≡ option_map of_chars (option_map reverse o)
    compose none = refl
    compose (some cs) = refl

abbrev range_of : (P : Floats) → String → String → Option String → ServingPredicate (Value P)
range_of P name prefix upper = record (no_bounds name) {
  gte = some (string prefix);
  lt = option_map string upper;
}

in_range :
    (P : Floats) (name text prefix : String) (upper : Option (List Char))
    → value_matches {P = P}
        (string text)
        (query_predicate (read_predicate (range_of P name prefix (option_map of_chars upper))))
      ≡ (not (is_lt (compare text prefix)) && below text upper)
unfolding value_matches compare_scalar_values read_predicate query_predicate
in_range P name text prefix none = ground arith
in_range P name text prefix (some upper) = ground arith

module _ {P : Floats} where
  -- Where the value of `begins_with` is a string, the key range that stands for it holds of a string
  -- just where that string begins with the prefix.
  pub begins_with_range_predicate_lem :
      (name token : String) (values : Dict String (Value P)) (prefix text : String)
      → lookup_expression_value token values ≡ ok (string prefix)
      → (p : ServingPredicate (Value P)) × (begins_with_range_predicate name token values ≡ ok p)
        × (value_matches (string text) (query_predicate (read_predicate p))
            ≡ starts_with (codes text) (codes prefix))
  unfolding begins_with_range_predicate
  begins_with_range_predicate_lem name token values prefix text e = (
    range_of P name prefix (next_string_prefix_upper_bound prefix),
    rw (begins_with_range_predicate, e) refl,
    rw (next_upper prefix, prefix_range prefix text)
        (in_range P name text prefix (upper_chars (chars prefix))),
  )
