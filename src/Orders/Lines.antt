-- ===== src/Orders/Lines.antt =====
-- `isUuid`, and `findBazosAdForLine`: the ad that a line of an order names.
use bazos.Base.{
  ℕ, zero, suc, ◌≡◌, ◌≢◌, refl, sym, ap, ◌∙◌, Option, none, some, List, [], ◌∷◌, ◌++◌, map, Bool,
  true, false, ◌&&◌, ◌||◌, &&-eq-true, if◌then◌else◌, leb, any, find_first, find_first-test, length,
  ◌==◌, nat_eq, codes_eq, option_eq, inl, inr, ◌⊎◌, Bool-cases, arith, lower_code, codes, String,
  ==-iff,
}
use bazos.Json.{Json, get, first_truthy}
use bazos.Store.{Store, BazosAd, Outcome, ok, err, invalid_query}
use bazos.Store.Runs.{ok_inj, err-ne_ok}
use bazos.Orders.{OrdersEnv}
use bazos.Orders.Query.{clean_identifier}

-- A class of characters of the pattern, of which the `i` flag reads the capitals too.
abbrev is_hex : ℕ → Bool
is_hex c = (leb b'0' c && leb c b'9') || (leb b'a' c && leb c b'f')

abbrev is_version : ℕ → Bool
is_version c = leb b'1' c && leb c b'5'

abbrev is_variant : ℕ → Bool
is_variant c = c == b'8' || c == b'9' || c == b'a' || c == b'b'

abbrev is_hyphen : ℕ → Bool
is_hyphen c = c == b'-'

abbrev times : ℕ → (ℕ → Bool) → List (ℕ → Bool) → List (ℕ → Bool)
times zero p ps = ps
times (suc n) p ps = p ∷ times n p ps

-- One class for each character.
unfoldable pub uuid_pattern : List (ℕ → Bool)
uuid_pattern = times 8 is_hex (
    is_hyphen
    ∷ times 4 is_hex
        (is_hyphen ∷ is_version ∷ times 3 is_hex (is_hyphen ∷ is_variant ∷ times 12 is_hex [])))

unfoldable pub matches : List (ℕ → Bool) → List ℕ → Bool
matches [] [] = true
matches [] (c ∷ cs) = false
matches (p ∷ ps) [] = false
matches (p ∷ ps) (c ∷ cs) = p c && matches ps cs

unfoldable pub is_uuid : List ℕ → Bool
unfolding uuid_pattern matches lower_code
is_uuid cs = matches uuid_pattern (map lower_code cs)

-- What a line of an order is compared with.
pub data Selector : Type 0 where
  by_id : List ℕ → Selector
  by_bazos_ad_id : List ℕ → Selector

abbrev pub ad_id_selector : List ℕ → List Selector
ad_id_selector [] = []
ad_id_selector id = if is_uuid id then by_id id ∷ [] else by_bazos_ad_id id ∷ []

abbrev pub bazos_ad_id_selector : List ℕ → List Selector
bazos_ad_id_selector [] = []
bazos_ad_id_selector id = by_bazos_ad_id id ∷ []

unfoldable pub selectors : Option Json → List Selector
unfolding clean_identifier is_uuid get first_truthy
selectors line =
    ad_id_selector (clean_identifier (get line "adId"))
    ++ bazos_ad_id_selector (
        clean_identifier
          (first_truthy line (("bazosAdId" ∷ []) ∷ ("offerId" ∷ []) ∷ ("listingId" ∷ []) ∷ [])))

abbrev pub codes_of : Option String → Option (List ℕ)
codes_of none = none
codes_of (some s) = some (codes s)

abbrev pub is_selected : OrdersEnv → BazosAd → Selector → Bool
is_selected env ad (by_id id) = env.read_id id == some ad.id
is_selected env ad (by_bazos_ad_id id) = codes_of ad.bazos_ad_id == some id

-- A text that the database does not take for an identifier.
abbrev is_malformed : OrdersEnv → Selector → Bool
is_malformed env (by_id id) = env.read_id id == none
is_malformed env (by_bazos_ad_id id) = false

-- The query is refused if it compares an identifier with a text that is none.
unfoldable pub find_bazos_ad_for_line :
    OrdersEnv → ℕ → Option Json → Store → Outcome (Option BazosAd)
unfolding selectors any find_first
find_bazos_ad_for_line env account_id line s =
    if any (is_malformed env) (selectors line)
    then err invalid_query
    else ok (
        find_first
          (λ ad. (ad.account_id == account_id) && any (is_selected env ad) (selectors line)) s.ads)

matches-length : (ps : List (ℕ → Bool)) (cs : List ℕ) → matches ps cs ≡ true → length cs ≡ length ps
unfolding matches
matches-length [] [] e = refl
matches-length [] (c ∷ cs) e = absurd (cc e)
matches-length (p ∷ ps) [] e = absurd (cc e)
matches-length (p ∷ ps) (c ∷ cs) e = ap suc (matches-length ps cs (&&-eq-true _ _ e).1)

length-map_codes : (f : ℕ → ℕ) (cs : List ℕ) → length (map f cs) ≡ length cs
length-map_codes f [] = refl
length-map_codes f (c ∷ cs) = ap suc (length-map_codes f cs)

is_uuid-length : (cs : List ℕ) → is_uuid cs ≡ true → length cs ≡ 32
unfolding is_uuid uuid_pattern
is_uuid-length cs e =
    sym (length-map_codes lower_code cs) ∙ matches-length uuid_pattern (map lower_code cs) e

-- The text of the fields that name the number of an ad on Bazos.
abbrev pub other_id : Option Json → List ℕ
other_id line =
    clean_identifier
      (first_truthy line (("bazosAdId" ∷ []) ∷ ("offerId" ∷ []) ∷ ("listingId" ∷ []) ∷ []))

-- What the ad `x` is named by.
abbrev IsNamed : OrdersEnv → BazosAd → List Selector → Type 0
IsNamed env x ts = any (is_selected env x) ts ≡ true

any_append :
    (p : Selector → Bool) (xs ys : List Selector)
    → any p (xs ++ ys) ≡ true
    → (any p xs ≡ true) ⊎ (any p ys ≡ true)
unfolding any
any_append p [] ys e = inr e
any_append p (x ∷ xs) ys e = ground (arith, any_append p xs ys)

by_number :
    (env : OrdersEnv) (x : BazosAd) (id : List ℕ)
    → IsNamed env x (by_bazos_ad_id id ∷ [])
    → codes_of x.bazos_ad_id ≡ some id
unfolding any
by_number env x id e = ground (arith, e)

ad_id-named :
    (env : OrdersEnv) (x : BazosAd) (id : List ℕ)
    → length id ≢ 32
    → IsNamed env x (ad_id_selector id)
    → codes_of x.bazos_ad_id ≡ some id
unfolding any
ad_id-named env x [] long e = absurd (cc e)
ad_id-named env x (c ∷ cs) long e = elim (Bool-cases (is_uuid (c ∷ cs))) [
  | inl uuid ↦ absurd (long (is_uuid-length (c ∷ cs) uuid))
  | inr other ↦ by_number env x (c ∷ cs) (sym (rw other refl) ∙ e)
]

other_id-named :
    (env : OrdersEnv) (x : BazosAd) (id : List ℕ)
    → IsNamed env x (bazos_ad_id_selector id)
    → codes_of x.bazos_ad_id ≡ some id
unfolding any
other_id-named env x [] e = absurd (cc e)
other_id-named env x (c ∷ cs) e = by_number env x (c ∷ cs) e

-- An ad that is found is the first one of the account that a selector names.
pub find_bazos_ad_for_line-first :
    (env : OrdersEnv) (account_id : ℕ) (line : Option Json) (s : Store) (o : Option BazosAd)
    → find_bazos_ad_for_line env account_id line s ≡ ok o
    → find_first
        (λ ad. (ad.account_id == account_id) && any (is_selected env ad) (selectors line))
        s.ads
      ≡ o
unfolding find_bazos_ad_for_line
find_bazos_ad_for_line-first env account_id line s o e =
    elim (Bool-cases (any (is_malformed env) (selectors line))) [
      | inl bad ↦ absurd (err-ne_ok {e = invalid_query} (sym (rw bad refl) ∙ e))
      | inr good ↦ ok_inj (sym (rw good refl) ∙ e)
    ]

-- If the `adId` of a line of an order does not have 32 characters, as a UUID with its 36 characters
-- does not, then an ad that is found for the line is an ad of the order's account, and its number on
-- Bazos is that text, or the one that another field gives: no ad is found by its identifier.
pub find_bazos_ad_for_line-number :
    (env : OrdersEnv) (account_id : ℕ) (line : Option Json) (s : Store) (x : BazosAd)
    → length (clean_identifier (get line "adId")) ≢ 32
    → find_bazos_ad_for_line env account_id line s ≡ ok (some x)
    → (x.account_id ≡ account_id)
      × ((codes_of x.bazos_ad_id ≡ some (clean_identifier (get line "adId")))
          ⊎ (codes_of x.bazos_ad_id ≡ some (other_id line)))
unfolding selectors
find_bazos_ad_for_line-number env account_id line s x long e =
    let (here, named) =
      &&-eq-true _ _ (
        find_first-test _ s.ads x
          (find_bazos_ad_for_line-first env account_id line s (some x) e)) in
    (
      (==-iff x.account_id account_id).0 here,
      elim (any_append (is_selected env x) (ad_id_selector (clean_identifier (get line "adId")))
          (bazos_ad_id_selector (other_id line)) named) [
            | inl by_ad_id ↦ inl (ad_id-named env x _ long by_ad_id)
            | inr by_other ↦ inr (other_id-named env x _ by_other)
          ],
    )
