-- ===== src/Json.antt =====
-- Values of JSON documents, and how JavaScript reads them: `x?.key`, `a ?? b`, `a || b`, `String(x)`.
-- An `undefined` value is `none`.
use bazos.Base.{
  ℕ, zero, Option, none, some, List, [], ◌∷◌, ◌++◌, map, Bool, true, false, not, ◌&&◌, ◌||◌, String,
  if◌then◌else◌, ◌==◌, nat_eq, string_eq, codes_eq, codes, lower_code, trim, ℤ, pos,
}

-- A number is kept as the whole number below it, whether it is that number, and the text that
-- `String` gives for it.
pub record Number : Type 0 where
  pub floor : ℤ
  pub is_whole : Bool
  pub shown : List ℕ

mutual
  pub data Json : Type 0 where
    null : Json
    bool : Bool → Json
    number : Number → Json
    text : String → Json
    arr : Items → Json
    obj : Fields → Json

  pub data Items : Type 0 where
    nil : Items
    item : Json → Items → Items

  pub data Fields : Type 0 where
    end : Fields
    field : String → Json → Fields → Fields

unfoldable pub member : String → Fields → Option Json
member k end = none
member k (field j v fs) = if j == k then some v else member k fs

-- `value?.key`
unfoldable pub get : Option Json → String → Option Json
unfolding member
get (some (obj fs)) k = member k fs
get v k = none

unfoldable pub path : Option Json → List String → Option Json
unfolding get
path v [] = v
path v (k ∷ ks) = path (get v k) ks

-- `a ?? b`
unfoldable pub given_or : Option Json → Option Json → Option Json
given_or none w = w
given_or (some null) w = w
given_or (some v) w = some v

-- `v.a ?? v.b ?? v.c`
unfoldable pub first_given : Option Json → List (List String) → Option Json
unfolding path given_or
first_given v [] = none
first_given v (p ∷ ps) = given_or (path v p) (first_given v ps)

abbrev is_nil : ℤ → Bool
is_nil (pos zero) = true
is_nil z = false

abbrev is_zero : Number → Bool
is_zero n = n.is_whole && is_nil n.floor

unfoldable pub is_truthy : Option Json → Bool
is_truthy none = false
is_truthy (some null) = false
is_truthy (some (bool b)) = b
is_truthy (some (number n)) = not (is_zero n)
is_truthy (some (text s)) = not (s == "")
is_truthy (some v) = true

-- `v.a || v.b || v.c`
unfoldable pub first_truthy : Option Json → List (List String) → Option Json
unfolding path is_truthy
first_truthy v [] = none
first_truthy v (p ∷ []) = path v p
first_truthy v (p ∷ q ∷ ps) =
    let rest = first_truthy v (q ∷ ps) in if is_truthy (path v p) then path v p else rest

-- How an element of an array is shown, given its text.
abbrev in_array : Json → List ℕ → List ℕ
in_array null cs = []
in_array v cs = cs

-- `String(value)`, where the elements of an array are joined with commas.
unfoldable mutual
  pub shown : Json → List ℕ
  shown null = codes "null"
  shown (bool true) = codes "true"
  shown (bool false) = codes "false"
  shown (number n) = n.shown
  shown (text s) = codes s
  shown (arr nil) = []
  shown (arr (item v vs)) = in_array v (shown v) ++ shown_rest vs
  shown (obj fs) = codes "[object Object]"

  pub shown_rest : Items → List ℕ
  shown_rest nil = []
  shown_rest (item v vs) = codes "," ++ (in_array v (shown v) ++ shown_rest vs)

-- `String(value || '')`
unfoldable pub shown_or_empty : Option Json → List ℕ
unfolding is_truthy shown
shown_or_empty none = []
shown_or_empty (some v) = if is_truthy (some v) then shown v else []

-- `String(value ?? '')`
unfoldable pub shown_if_given : Option Json → List ℕ
unfolding shown
shown_if_given none = []
shown_if_given (some null) = []
shown_if_given (some v) = shown v

unfoldable pub trimmed_lower : List ℕ → List ℕ
unfolding trim lower_code
trimmed_lower cs = map lower_code (trim cs)

abbrev is_false_or_zero : Option Json → Bool
is_false_or_zero (some (bool b)) = not b
is_false_or_zero (some (number n)) = is_zero n
is_false_or_zero v = false

-- `booleanFalse`
unfoldable pub boolean_false : Option Json → Bool
unfolding shown_if_given trimmed_lower
boolean_false v =
    is_false_or_zero v
    || let normalized = trimmed_lower (shown_if_given v) in
      normalized == codes "false" || normalized == codes "0" || normalized == codes "no"
