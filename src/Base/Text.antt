-- ===== src/Base/Text.antt =====
-- Text as code points, and JavaScript's `toLowerCase` on its ASCII letters.
use Prim.Native.Nat.{ℕ, zero, suc, ◌+◌, ◌/◌, ◌%◌, ◌<◌}
use mathlib.Core.Path.{◌≡◌, refl, ap}
use mathlib.Core.Logic.{inl, inr}
use native.Mathlib.Omega.{arith}
use Prim.Native.Char.{code}
use Prim.Native.String.{String}
use mathlib.Core.Bool.{Bool, true, false, not, ◌&&◌, ◌||◌}
use mathlib.Core.Option.{Option, none, some}
use mathlib.Core.List.{List, [], ◌∷◌, ◌++◌, map, reverse}
use bazos.Base.Tests.{leb, ltb, Bool-cases, if◌then◌else◌, ◌==◌, string_eq, nat_eq}

abbrev pub codes : String → List ℕ
codes String.[] = []
codes (String.◌∷◌ c s) = code c ∷ codes s

unfoldable pub lower_code : ℕ → ℕ
lower_code c = if leb b'A' c && leb c b'Z' then c + 32 else c

unfoldable pub to_lower : String → List ℕ
unfolding lower_code
to_lower s = map lower_code (codes s)

-- JavaScript reads an absent text and the empty one as false.
unfoldable pub truthy : Option String → Bool
truthy none = false
truthy (some s) = not (s == "")

-- `a || b` on texts that may be absent.
unfoldable pub or_else : Option String → Option String → Option String
unfolding truthy
or_else a b = if truthy a then a else b

-- The white space that `trim` removes.
unfoldable pub is_space : ℕ → Bool
is_space c =
    (leb 9 c && leb c 13)
    || c == 32
    || c == 160
    || c == 0x1680
    || (leb 0x2000 c && leb c 0x200a)
    || c == 0x2028
    || c == 0x2029
    || c == 0x202f
    || c == 0x205f
    || c == 0x3000
    || c == 0xfeff

unfoldable pub trim_start : List ℕ → List ℕ
unfolding is_space
trim_start [] = []
trim_start (c ∷ cs) = let rest = trim_start cs in if is_space c then rest else c ∷ cs

unfoldable pub trim : List ℕ → List ℕ
unfolding trim_start
trim cs = reverse (trim_start (reverse (trim_start cs)))

-- `/[^a-zA-Z0-9]/g` removed, and lower case.
unfoldable pub is_alphanumeric : ℕ → Bool
is_alphanumeric c =
    (leb b'a' c && leb c b'z') || (leb b'A' c && leb c b'Z') || (leb b'0' c && leb c b'9')

unfoldable pub begins_with : List ℕ → List ℕ → Bool
begins_with [] cs = true
begins_with (p ∷ ps) [] = false
begins_with (p ∷ ps) (c ∷ cs) = p == c && begins_with ps cs

-- `text.includes(part)`
unfoldable pub includes : List ℕ → List ℕ → Bool
unfolding begins_with
includes [] part = begins_with part []
includes (c ∷ cs) part = begins_with part (c ∷ cs) || includes cs part

starts : (ℕ → Bool) → List ℕ → Bool
starts p [] = false
starts p (c ∷ cs) = p c

-- Each run of characters of `p` replaced with `c`.
unfoldable pub replace_runs : (ℕ → Bool) → ℕ → List ℕ → List ℕ
unfolding starts
replace_runs p r [] = []
replace_runs p r (c ∷ cs) =
    let rest = replace_runs p r cs in
    if p c then (if starts p cs then rest else r ∷ rest) else c ∷ rest

-- `trim` on a native text.
unfoldable pub trim_text_start : String → String
unfolding is_space
trim_text_start String.[] = ""
trim_text_start (String.◌∷◌ c s) =
    let rest = trim_text_start s in if is_space (code c) then rest else String.◌∷◌ c s

unfoldable pub trim_text_end : String → String
unfolding is_space
trim_text_end String.[] = ""
trim_text_end (String.◌∷◌ c s) =
    let rest = trim_text_end s in if is_space (code c) && rest == "" then "" else String.◌∷◌ c rest

unfoldable pub trim_text : String → String
unfolding trim_text_start trim_text_end
trim_text s = trim_text_end (trim_text_start s)

-- The decimal digits of a number, which has fewer than `n + 1` of them.
unfoldable digits_within : ℕ → ℕ → List ℕ
digits_within zero n = []
digits_within (suc fuel) n =
    let rest = digits_within fuel (n / 10) in
    if ltb n 10 then (b'0' + n) ∷ [] else rest ++ ((b'0' + n % 10) ∷ [])

-- `String(n)`
unfoldable pub decimal : ℕ → List ℕ
unfolding digits_within
decimal n = digits_within (suc n) n

-- More fuel than the number does not matter.
digits_within-fuel : (f g n : ℕ) → n < f → n < g → digits_within f n ≡ digits_within g n
unfolding digits_within
digits_within-fuel zero g n h k = absurd (omega (arith, h))
digits_within-fuel (suc f) zero n h k = absurd (omega (arith, k))
digits_within-fuel (suc f) (suc g) n h k = elim (Bool-cases (ltb n 10)) [
  | inl small ↦ rw small refl
  | inr big ↦ rw big (
      ap (λ rest. rest ++ ((b'0' + n % 10) ∷ []))
        (digits_within-fuel f g (n / 10) (ground (arith, h, big)) (ground (arith, k, big))))
]
