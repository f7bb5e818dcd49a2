-- ===== src/Json.antt =====
-- JSON values, `serde_json::Value`, as the query path and the front ends use them, and the texts in
-- them. A number is an integer or a float; the floats are a parameter. An object keeps its entries
-- in the order of insertion (the crate is built with `preserve_order`); what order a removal leaves
-- is not modelled.
use Prim.Native.Nat.{Ordering, compare}
use Prim.Native.Char.{code}
use Prim.Native.String.{String}
use powdrr_engine.Common.{
  ℕ, suc, ◌+◌, ◌≡◌, Bool, true, false, ◌&&◌, ◌||◌, Option, none, some, List, [], ◌∷◌, if◌then◌else◌,
  ◌==◌, string_eq, bool_eq, nat_eq, ltb, refl, arith,
}
use powdrr_engine.Common.Int.{ℤ, pos_part, neg_part}

-- `f64`
pub record Floats : Type 1 where
  pub F : Type 0
  pub of_int : ℤ → F
  pub partial_cmp : F → F → Option Ordering
  pub same : F → F → Bool
  pub add : F → F → F
  pub is_finite : F → Bool
  pub parse : String → Option F
  pub print : F → String

pub data Number (P : Floats) : Type 0 where
  int : ℤ → Number P
  float : P.F → Number P

mutual
  pub data Value (P : Floats) : Type 0 where
    null : Value P
    boolean : Bool → Value P
    number : Number P → Value P
    string : String → Value P
    array : Values P → Value P
    object : Fields P → Value P

  pub data Values (P : Floats) : Type 0 where
    nil : Values P
    cons : Value P → Values P → Values P

  pub data Fields (P : Floats) : Type 0 where
    end : Fields P
    field : String → Value P → Fields P → Fields P

-- the code points of a text
abbrev pub codes : String → List ℕ
codes String.[] = []
codes (String.◌∷◌ c s) = code c ∷ codes s

abbrev pub starts_with : List ℕ → List ℕ → Bool
starts_with text [] = true
starts_with [] (p ∷ prefix) = false
starts_with (c ∷ text) (p ∷ prefix) = c == p && starts_with text prefix

-- `str::contains`
abbrev pub contains_text : List ℕ → List ℕ → Bool
contains_text [] part = starts_with [] part
contains_text (c ∷ text) part = starts_with (c ∷ text) part || contains_text text part

abbrev pub width : ℕ → ℕ
width c = if ltb c 128 then 1 else if ltb c 2048 then 2 else if ltb c 65536 then 3 else 4

-- `str::len`, in bytes
abbrev pub len_utf8 : List ℕ → ℕ
len_utf8 [] = 0
len_utf8 (c ∷ text) = width c + len_utf8 text

abbrev pub compare_ℤ : ℤ → ℤ → Ordering
compare_ℤ a b = compare (pos_part a + neg_part b) (pos_part b + neg_part a)

abbrev pub bool_cmp : Bool → Bool → Ordering
bool_cmp false true = Ordering.lt
bool_cmp true false = Ordering.gt
bool_cmp _ _ = Ordering.eq

abbrev pub is_eq : Ordering → Bool
is_eq Ordering.eq = true
is_eq _ = false

abbrev pub is_lt : Ordering → Bool
is_lt Ordering.lt = true
is_lt _ = false

abbrev pub is_gt : Ordering → Bool
is_gt Ordering.gt = true
is_gt _ = false

module _ {P : Floats} where
  abbrev pub elements : Values P → List (Value P)
  elements nil = []
  elements (cons v vs) = v ∷ elements vs

  abbrev pub of_elements : List (Value P) → Values P
  of_elements [] = nil
  of_elements (v ∷ vs) = cons v (of_elements vs)

  abbrev pub count : Fields P → ℕ
  count end = 0
  count (field k v fs) = suc (count fs)

  -- `Map::get`, `insert` and `remove`
  unfoldable pub get_field : Fields P → String → Option (Value P)
  get_field end k = none
  get_field (field j v fs) k = if j == k then some v else get_field fs k

  unfoldable pub insert_field : String → Value P → Fields P → Fields P
  insert_field k v end = field k v end
  insert_field k v (field j w fs) = if j == k then field k v fs else field j w (insert_field k v fs)

  unfoldable pub remove_field : String → Fields P → Fields P
  remove_field k end = end
  remove_field k (field j w fs) =
      let rest = remove_field k fs in if j == k then rest else field j w rest

  abbrev pub number_same : Number P → Number P → Bool
  number_same (int a) (int b) = is_eq (compare_ℤ a b)
  number_same (float a) (float b) = P.same a b
  number_same _ _ = false

  -- `PartialEq`: the entries of an object are compared by key
  unfoldable mutual
    pub same : Value P → Value P → Bool
    same null null = true
    same (boolean a) (boolean b) = a == b
    same (number a) (number b) = number_same a b
    same (string a) (string b) = a == b
    same (array a) (array b) = same_all a b
    same (object a) (object b) = count a == count b && included a b
    same _ _ = false

    pub same_all : Values P → Values P → Bool
    same_all nil nil = true
    same_all (cons v vs) (cons w ws) = same v w && same_all vs ws
    same_all _ _ = false

    pub included : Fields P → Fields P → Bool
    included end gs = true
    included (field k v fs) gs =
        let rest = included fs gs in
        let test = λ (w : Value P). same v w in
        elim (get_field gs k) [ none ↦ false | some w ↦ test w && rest ]

  abbrev pub is_null : Value P → Bool
  is_null null = true
  is_null _ = false

  abbrev pub as_str : Value P → Option String
  as_str (string s) = some s
  as_str _ = none

  abbrev pub as_bool : Value P → Option Bool
  as_bool (boolean b) = some b
  as_bool _ = none

  abbrev pub as_array : Value P → Option (List (Value P))
  as_array (array vs) = some (elements vs)
  as_array _ = none

  abbrev pub as_object : Value P → Option (Fields P)
  as_object (object fs) = some fs
  as_object _ = none

  abbrev pub is_number : Value P → Bool
  is_number (number n) = true
  is_number _ = false

  abbrev pub as_f64 : Number P → P.F
  as_f64 (int a) = P.of_int a
  as_f64 (float a) = a

  -- `json!` of an `f64`: what is not finite is null
  abbrev pub of_f64 : P.F → Value P
  of_f64 a = if P.is_finite a then number (float a) else null

  pub get_field-insert_field :
      (k j : String) (v : Value P) (fs : Fields P)
      → get_field (insert_field k v fs) j ≡ (if k == j then some v else get_field fs j)
  unfolding get_field insert_field
  get_field-insert_field k j v end = refl
  get_field-insert_field k j v (field i w fs) = ground (
    arith,
    string_eq.same_iff k j,
    string_eq.same_iff i k,
    string_eq.same_iff i j,
    get_field-insert_field k j v fs,
  )

  pub get_field-remove_field :
      (k j : String) (fs : Fields P)
      → get_field (remove_field k fs) j ≡ (if k == j then none else get_field fs j)
  unfolding get_field remove_field
  get_field-remove_field k j end = ground arith
  get_field-remove_field k j (field i w fs) = ground (
    arith,
    string_eq.same_iff k j,
    string_eq.same_iff i k,
    string_eq.same_iff i j,
    get_field-remove_field k j fs,
  )
