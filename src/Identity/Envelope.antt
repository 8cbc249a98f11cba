-- ===== src/Identity/Envelope.antt =====
-- `validateEncryptedSessionEnvelope` and `rejectForbiddenSessionKeys` of
-- shared/bazos/identity/bazos-identity.service.ts.
use bazos.Base.{
  ℕ, Option, none, some, List, [], ◌∷◌, map, Bool, true, false, ◌&&◌, ◌||◌, String, ◌==◌, codes_eq,
  any, select, if◌then◌else◌, codes, lower_code, is_alphanumeric, trim,
}
use bazos.Json.{
  Json, Items, Fields, null, bool, number, text, arr, obj, nil, item, end, field, member,
}

abbrev pub forbidden_session_keys : List (List ℕ)
forbidden_session_keys = map codes (
    "cookie" ∷ "cookies" ∷ "rawcookie" ∷ "rawcookies" ∷ "sessioncookie" ∷ "sessioncookies"
    ∷ "password" ∷ "verificationcode" ∷ "smscode" ∷ "bankcode" ∷ "paymentdetails" ∷ "paymentcard"
    ∷ [])

unfoldable pub normalized_key : String → List ℕ
unfolding is_alphanumeric lower_code select
normalized_key key = map lower_code (select is_alphanumeric (codes key))

unfoldable pub is_forbidden : String → Bool
unfolding normalized_key any
is_forbidden key = any (λ k. k == normalized_key key) forbidden_session_keys

-- Whether a key at any depth is forbidden; the keys of an array are its indices.
unfoldable mutual
  pub has_forbidden : Json → Bool
  has_forbidden null = false
  has_forbidden (bool b) = false
  has_forbidden (number n) = false
  has_forbidden (text s) = false
  has_forbidden (arr xs) = items_forbidden xs
  has_forbidden (obj fs) = fields_forbidden fs

  pub items_forbidden : Items → Bool
  items_forbidden nil = false
  items_forbidden (item v xs) = has_forbidden v || items_forbidden xs

  pub fields_forbidden : Fields → Bool
  fields_forbidden end = false
  fields_forbidden (field k v fs) = is_forbidden k || (has_forbidden v || fields_forbidden fs)

abbrev is_filled : List ℕ → Bool
is_filled [] = false
is_filled (c ∷ cs) = true

abbrev pub is_present : Option Json → Bool
is_present (some (text s)) = is_filled (trim (codes s))
is_present v = false

unfoldable pub has_required : Fields → Bool
unfolding member trim
has_required fs =
    is_present (member "ciphertext" fs)
    && is_present (member "iv" fs)
    && is_present (member "authTag" fs)
    && is_present (member "algorithm" fs)
    && is_present (member "keyRef" fs)
    && is_present (member "capturedAt" fs)

-- The fields of an envelope that passes; `none` stands for the exception.
unfoldable pub validate_encrypted_session_envelope : Json → Option Fields
validate_encrypted_session_envelope (obj fs) =
    if fields_forbidden fs then none else (if has_required fs then some fs else none)
validate_encrypted_session_envelope v = none
