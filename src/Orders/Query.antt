-- ===== src/Orders/Query.antt =====
-- The values of a query: `cleanIdentifier`, `parseOptionalBoolean`, `parseLimit` and
-- `shouldIncludeCentralStatus`. A text that is `undefined` is empty.
use bazos.Base.{
  ℕ, Option, none, some, List, Bool, true, false, ◌||◌, if◌then◌else◌, ltb, ◌==◌, codes_eq, codes,
  trim, ℤ, pos,
}
use bazos.Json.{Json, null, bool, number, text, get, shown_if_given, shown, trimmed_lower}
use bazos.Orders.{OrdersEnv}

unfoldable pub clean_identifier : Option Json → List ℕ
unfolding shown_if_given trim
clean_identifier v = trim (shown_if_given v)

abbrev pub boolean_of : List ℕ → Option Bool
boolean_of normalized =
    if normalized == codes "true" || normalized == codes "1" || normalized == codes "yes"
    then some true
    else (if normalized == codes "false" || normalized == codes "0" || normalized == codes "no"
        then some false
        else none)

unfoldable pub parse_optional_boolean : Option Json → Option Bool
unfolding trimmed_lower
parse_optional_boolean (some (bool b)) = some b
parse_optional_boolean (some (text s)) = boolean_of (trimmed_lower (codes s))
parse_optional_boolean v = none

-- `Number(value)` where it is a whole number.
unfoldable pub whole_of : OrdersEnv → Json → Option ℤ
unfolding shown
whole_of env (bool true) = some (pos 1)
whole_of env (bool false) = some (pos 0)
whole_of env (number n) = if n.is_whole then some n.floor else none
whole_of env v = env.read_whole (shown v)

abbrev pub limit_from : Option ℤ → ℕ
limit_from (some (pos n)) = if ltb n 1 then 25 else (if ltb 100 n then 100 else n)
limit_from z = 25

unfoldable pub parse_limit : OrdersEnv → Option Json → ℕ
unfolding whole_of
parse_limit env none = 25
parse_limit env (some null) = 25
parse_limit env (some v) = limit_from (whole_of env v)

abbrev pub is_true : Option Bool → Bool
is_true none = false
is_true (some b) = b

unfoldable pub should_include_central_status : Option Json → Bool
unfolding parse_optional_boolean get
should_include_central_status query =
    is_true (parse_optional_boolean (get query "centralStatus"))
    || is_true (parse_optional_boolean (get query "includeCentralStatus"))
    || is_true (parse_optional_boolean (get query "central"))
    || is_true (parse_optional_boolean (get query "withCentral"))
