-- ===== src/Schemas/Zod.antt =====
-- Schemas as the program writes them, the library that reads them as a parameter, and what its
-- documentation says of a value that it accepts.
use capstone_home_care_be_mi.Common.{
  ℕ, ◌≡◌, ◌↔◌, ◌≤◌, String, Bool, true, false, not, ◌&&◌, ◌||◌, Option, none, some, List, [], ◌∷◌,
  ◌++◌, keep, any, all, ◌==◌, ◌===◌, utf16_length, if◌then◌else◌,
}

-- A value of a parsed body. Logical values, lists and objects are `other`: no body has one. Numbers
-- are natural: a negative number or a fraction is not modelled.
pub data Value : Type 0 where
  text : String → Value
  number : ℕ → Value
  null : Value
  other : Value

abbrev pub Fields : Type 0
Fields = List (String × Value)

abbrev pub is_null : Value → Bool
is_null null = true
is_null _ = false

abbrev pub lookup : String → Fields → Option Value
lookup key [] = none
lookup key (f ∷ fields) = let rest = lookup key fields in if f.0 === key then some f.1 else rest

-- `.min(n)`, `.max(n)`, `.length(n)`, `.email()`, `.url()`, `.regex(r)`
pub data Check : Type 0 where
  min max length : ℕ → Check
  email url : Check
  regex : String → Check

-- `z.string()` with `.trim()` or without, `z.nativeEnum` and `z.enum`, `z.number()`, and
-- `z.number().int().positive()`; `unread` is a date or a list, which no body picks.
pub data Kind : Type 0 where
  string : Bool → List Check → Kind
  enumeration : List String → Kind
  number positive : Kind
  unread : Kind

pub record Field : Type 0 where
  pub key : String
  pub kind : Kind
  pub optional : Bool
  pub nullable : Bool

pub record Issue : Type 0 where
  pub path : String
  pub message : String

-- The function given to `superRefine`: the issues that it adds.
abbrev pub Refinement : Type 0
Refinement = (String → Option Value) → List Issue

-- `z.object`, `pick`, `extend`, `merge`, `strict` and `superRefine`.
pub data Schema : Type 0 where
  object : List Field → Schema
  pick : Schema → List String → Schema
  extend : Schema → List Field → Schema
  merge : Schema → Schema → Schema
  strict : Schema → Schema
  super_refine : Schema → Refinement → Schema

pub record Zod : Type 0 where
  -- `schema.safeParse(body)`: the data, where it succeeds
  pub parse : Schema → Fields → Option Fields
  pub check : Check → String → Bool
  pub trim : String → String
  pub reads : Value → Value → Bool

-- What the documentation says that a schema is.
abbrev pub has_key : List Field → String → Bool
has_key fields key = any (λ f. f.key === key) fields

abbrev pub shape : Schema → List Field
shape (object fields) = fields
shape (pick s keys) = keep (λ f. any (λ k. k === f.key) keys) (shape s)
shape (extend s fields) = keep (λ f. not (has_key fields f.key)) (shape s) ++ fields
shape (merge a b) = keep (λ f. not (has_key (shape b) f.key)) (shape a) ++ shape b
shape (strict s) = shape s
shape (super_refine s r) = shape s

abbrev pub is_strict : Schema → Bool
is_strict (object fields) = false
is_strict (pick s keys) = is_strict s
is_strict (extend s fields) = is_strict s
is_strict (merge a b) = is_strict b
is_strict (strict s) = true
is_strict (super_refine s r) = is_strict s

abbrev pub refinements : Schema → List Refinement
refinements (super_refine s r) = refinements s ++ r ∷ []
refinements (strict s) = refinements s
refinements _ = []

abbrev pub no_issue : List Issue → Bool
no_issue [] = true
no_issue (_ ∷ _) = false

module _ (z : Zod) where
  -- `y` is what is read of `x`
  abbrev pub kind_ok : Kind → Value → Value → Bool
  kind_ok (string trimmed checks) (text a) (text b) =
      (b === (if trimmed then z.trim a else a)) && all (λ c. z.check c b) checks
  kind_ok (enumeration names) (text a) (text b) = b === a && any (λ n. n === b) names
  kind_ok number (number a) (number b) = b == a
  kind_ok positive (number a) (number b) = b == a && not (a == 0)
  kind_ok unread x y = z.reads x y
  kind_ok _ _ _ = false

  abbrev pub field_ok : Field → Option Value → Option Value → Bool
  field_ok f none none = f.optional
  field_ok f (some x) (some y) = (f.nullable && (is_null x && is_null y)) || kind_ok f.kind x y
  field_ok f _ _ = false

  abbrev pub accepts : Schema → Fields → Fields → Bool
  accepts s body data_read =
      all (λ f. field_ok f (lookup f.key body) (lookup f.key data_read)) (shape s)
      && (not (is_strict s) || all (λ kv. has_key (shape s) kv.0) body)
      && all (λ r. no_issue (r (λ k. lookup k data_read))) (refinements s)

-- What is relied on: a body is read only as its schema says, and the tests on the length of a text
-- are tests on the number of its UTF-16 units.
pub record SoundZod (z : Zod) : Type 0 where
  pub parse-ok :
      (s : Schema) (body out : Fields) → z.parse s body ≡ some out → accepts z s body out ≡ true
  pub check-min : (n : ℕ) (s : String) → z.check (min n) s ≡ true → n ≤ utf16_length s
  pub check-max : (n : ℕ) (s : String) → z.check (max n) s ≡ true → utf16_length s ≤ n
  pub check-length : (n : ℕ) (s : String) → (z.check (length n) s ≡ true) ↔ (utf16_length s ≡ n)
