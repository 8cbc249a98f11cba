-- ===== src/Orders/SourceLines.antt =====
-- `extractSourceLines`: the lines of an order as it is given.
use bazos.Base.{Option, none, some, List, [], ◌∷◌, Bool, ◌||◌, if◌then◌else◌, String}
use bazos.Json.{Json, Items, arr, obj, nil, item, get, first_truthy, is_truthy}

unfoldable pub has_line_identifier : Option Json → Bool
unfolding first_truthy is_truthy
has_line_identifier data_ = is_truthy (
    first_truthy data_
      (("adId" ∷ []) ∷ ("bazosAdId" ∷ []) ∷ ("offerId" ∷ []) ∷ ("listingId" ∷ []) ∷ []))

unfoldable pub has_catalog_product_identifier : Option Json → Bool
unfolding first_truthy is_truthy
has_catalog_product_identifier data_ =
    is_truthy (first_truthy data_ (("catalogProductId" ∷ []) ∷ ("productId" ∷ []) ∷ []))

-- The elements that are objects. An array is one, `null` is not.
abbrev pub objects : Items → List Json
objects nil = []
objects (item (obj fs) vs) = obj fs ∷ objects vs
objects (item (arr ws) vs) = arr ws ∷ objects vs
objects (item v vs) = objects vs

abbrev first_array : Option Json → List String → Option Items
first_array data_ [] = none
first_array data_ (k ∷ ks) = array_or (get data_ k) (first_array data_ ks)
  where
    array_or : Option Json → Option Items → Option Items
    array_or (some (arr vs)) rest = some vs
    array_or v rest = rest

abbrev pub single_line : Option Json → List Json
single_line none = []
single_line (some v) =
    if has_line_identifier (some v) || has_catalog_product_identifier (some v) then v ∷ [] else []

unfoldable pub extract_source_lines : Option Json → List Json
unfolding get has_line_identifier has_catalog_product_identifier
extract_source_lines data_ =
    elim (first_array data_ ("items" ∷ "orderItems" ∷ "lines" ∷ "products" ∷ [])) [
      | some vs ↦ objects vs
      | none ↦ single_line data_
    ]
