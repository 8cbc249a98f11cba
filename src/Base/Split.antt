-- ===== src/Base/Split.antt =====
-- Text that is split at a separator.
use Prim.Native.Nat.{ℕ}
use mathlib.Core.Path.{◌≡◌, refl}
use mathlib.Core.Bool.{false}
use mathlib.Core.Option.{Option, none, some}
use mathlib.Core.List.{List, [], ◌∷◌, ◌++◌}
use native.Mathlib.Omega.{arith}
use bazos.Base.Tests.{if◌then◌else◌, ◌==◌, nat_eq}
use bazos.Base.Lists.{All}

abbrev pub cons_head : ℕ → List (List ℕ) → List (List ℕ)
cons_head c [] = (c ∷ []) ∷ []
cons_head c (p ∷ ps) = (c ∷ p) ∷ ps

-- `text.split(separator)`
unfoldable pub split : ℕ → List ℕ → List (List ℕ)
split sep [] = [] ∷ []
split sep (c ∷ cs) = let rest = split sep cs in if c == sep then [] ∷ rest else cons_head c rest

abbrev pub cons_before : ℕ → Option (List ℕ × List ℕ) → Option (List ℕ × List ℕ)
cons_before c none = none
cons_before c (some (before, after)) = some (c ∷ before, after)

-- The text before the first separator and the text after it.
unfoldable pub cut : ℕ → List ℕ → Option (List ℕ × List ℕ)
cut sep [] = none
cut sep (c ∷ cs) = let rest = cut sep cs in if c == sep then some ([], cs) else cons_before c rest

abbrev pub Lacks : ℕ → List ℕ → Type 0
Lacks sep cs = All (λ c. (c == sep) ≡ false) cs

pub split-append :
    (sep : ℕ) (p rest : List ℕ) → Lacks sep p → split sep (p ++ sep ∷ rest) ≡ p ∷ split sep rest
unfolding split
split-append sep [] rest h = ground arith
split-append sep (c ∷ cs) rest (h, hs) = rw (h, split-append sep cs rest hs) refl

pub split-alone : (sep : ℕ) (p : List ℕ) → Lacks sep p → split sep p ≡ p ∷ []
unfolding split
split-alone sep [] h = refl
split-alone sep (c ∷ cs) (h, hs) = rw (h, split-alone sep cs hs) refl

pub cut-append :
    (sep : ℕ) (p rest : List ℕ) → Lacks sep p → cut sep (p ++ sep ∷ rest) ≡ some (p, rest)
unfolding cut
cut-append sep [] rest h = ground arith
cut-append sep (c ∷ cs) rest (h, hs) = rw (h, cut-append sep cs rest hs) refl

pub Lacks-append : (sep : ℕ) (p q : List ℕ) → Lacks sep p → Lacks sep q → Lacks sep (p ++ q)
Lacks-append sep [] q h k = k
Lacks-append sep (c ∷ cs) q (h, hs) k = (h, Lacks-append sep cs q hs k)
