-- ===== src/Auth/Authenticated.antt =====
-- Whom the guard lets through.
use bazos.Base.{
  ℕ, ◌<◌, ◌≡◌, ◌≢◌, refl, sym, ap, ◌∙◌, subst, Option, none, some, List, [], ◌∷◌, true, inl, inr,
  Bool-cases, ◌==◌, codes_eq, ==-iff, codes, split, some_inj,
}
use bazos.Json.{Json, is_truthy}
use bazos.Retry.{resolved, Result, returned, thrown, retry, retry-IsFound, AllRejected}
use bazos.Auth.{
  ValidateTokenResponse, AuthUser, CallError, Calls, validate_token, response_or_invalid,
  first_string, id_values, user_id_of, with_id, normalize_user, bearer, extract_token_from_header,
  GuardResult, accepted, unauthorized, accept, accept_json, check_validation, check_token,
  can_activate, given_text, or_next,
}

abbrev IsAccepted : GuardResult → Type 0
IsAccepted (accepted u) = Unit
IsAccepted unauthorized = ⊥

abbrev user_or : AuthUser → GuardResult → AuthUser
user_or d (accepted u) = u
user_or d unauthorized = d

unauthorized-ne_accepted : {u : AuthUser} → ¬ unauthorized ≡ accepted u
unauthorized-ne_accepted e = subst IsAccepted (sym e) tt

or_rest-ne_nil :
    (t : List ℕ) (rest : Option (List ℕ)) (cs : List ℕ)
    → ((ds : List ℕ) → rest ≡ some ds → ds ≢ [])
    → or_next t rest ≡ some cs
    → cs ≢ []
or_rest-ne_nil [] rest cs h e = h cs e
or_rest-ne_nil (c ∷ t) rest cs h e = λ nil. absurd (cc (some_inj e ∙ nil))

first_string-ne_nil : (vs : List (Option Json)) (cs : List ℕ) → first_string vs ≡ some cs → cs ≢ []
unfolding first_string
first_string-ne_nil [] cs e = absurd (cc e)
first_string-ne_nil (v ∷ vs) cs e =
    or_rest-ne_nil (given_text v) (first_string vs) cs (first_string-ne_nil vs) e

-- The user of a reply, and the identifier that it names.
abbrev IsUserOf : ValidateTokenResponse → AuthUser → Type 0
IsUserOf r u =
    (r.valid ≡ true) × ((j : Json) × (r.user ≡ some j) × (user_id_of j ≡ some u.id)) × (u.id ≢ [])

accept-IsUserOf :
    (j : Json) (o : Option (List ℕ)) (u : AuthUser)
    → user_id_of j ≡ o
    → accept (with_id j o) ≡ accepted u
    → (user_id_of j ≡ some u.id) × (u.id ≢ [])
unfolding user_id_of
accept-IsUserOf j none u named e = absurd (unauthorized-ne_accepted e)
accept-IsUserOf j (some id) u named e =
    let is_id : id ≡ u.id = ap (λ r. (user_or u r).id) e in
    (
      named ∙ ap some is_id,
      subst (λ cs. cs ≢ []) is_id (first_string-ne_nil (id_values j) id named),
    )

accept_json-IsUserOf :
    (o : Option Json) (u : AuthUser)
    → accept_json o ≡ accepted u
    → (j : Json) × (o ≡ some j) × (user_id_of j ≡ some u.id) × (u.id ≢ [])
unfolding normalize_user
accept_json-IsUserOf none u e = absurd (unauthorized-ne_accepted e)
accept_json-IsUserOf (some j) u e = elim (Bool-cases (is_truthy (some j))) [
  | inl given ↦
      let normalized : accept_json (some j) ≡ accept (normalize_user j) = rw given refl in
      let (named, some_id) = accept-IsUserOf j (user_id_of j) u refl (sym normalized ∙ e) in
      (j, refl, named, some_id)
  | inr absent ↦
      let denied : accept_json (some j) ≡ unauthorized = rw absent refl in
      absurd (unauthorized-ne_accepted (sym denied ∙ e))
]

check_validation-IsUserOf :
    (r : ValidateTokenResponse) (u : AuthUser) → check_validation r ≡ accepted u → IsUserOf r u
check_validation-IsUserOf r u e = elim (Bool-cases r.valid) [
  | inl valid ↦
      let checked : check_validation r ≡ accept_json r.user = rw valid refl in
      let (j, has, named, some_id) = accept_json-IsUserOf r.user u (sym checked ∙ e) in
      (valid, (j, has, named), some_id)
  | inr invalid ↦
      let denied : check_validation r ≡ unauthorized = rw invalid refl in
      absurd (unauthorized-ne_accepted (sym denied ∙ e))
]

-- One of two tries to validate the token has brought a reply, with that user.
abbrev IsValidated : Calls ValidateTokenResponse → AuthUser → Type 0
IsValidated calls u =
    (k : ℕ) × (k < 2)
    × AllRejected calls 0 k
    × ((r : ValidateTokenResponse) × (calls k ≡ resolved r) × IsUserOf r u)

validated :
    (calls : Calls ValidateTokenResponse) (u : AuthUser)
    (r : Result ValidateTokenResponse CallError)
    → (retry calls 2 500).result ≡ r
    → check_validation (response_or_invalid r) ≡ accepted u
    → IsValidated calls u
validated calls u (returned r) e ok =
    let (k, before, fails, found) = retry-IsFound calls 2 500 r e in
    (k, before, fails, (r, found, check_validation-IsUserOf r u ok))
validated calls u (thrown x) e ok = absurd (unauthorized-ne_accepted ok)

-- The request names a token that auth-microservice has validated.
pub record IsAuthenticated (calls : List ℕ → Calls ValidateTokenResponse)
    (authorization : Option (List ℕ)) (u : AuthUser) : Type 0 where
  pub header : List ℕ
  pub given : authorization ≡ some header
  pub token : List ℕ
  pub others : List (List ℕ)
  pub words : split b' ' header ≡ codes "Bearer" ∷ token ∷ others
  pub some_token : token ≢ []
  pub validated_token : IsValidated (calls token) u

bearer-words :
    (ws : List (List ℕ)) (token : List ℕ)
    → bearer ws ≡ some token
    → (others : List (List ℕ)) × (ws ≡ codes "Bearer" ∷ token ∷ others)
bearer-words [] token e = absurd (cc e)
bearer-words (w ∷ []) token e = absurd (cc e)
bearer-words (w ∷ t ∷ ws) token e = elim (Bool-cases (w == codes "Bearer")) [
  | inl hit ↦
      let kept : bearer (w ∷ t ∷ ws) ≡ some t = rw hit refl in
      let is_token : t ≡ token = some_inj (sym kept ∙ e) in
      (
        ws,
        ap (λ x. x ∷ t ∷ ws) ((==-iff w (codes "Bearer")).0 hit)
            ∙ ap (λ x. codes "Bearer" ∷ x ∷ ws) is_token,
      )
  | inr other ↦
      let dropped : bearer (w ∷ t ∷ ws) ≡ none = rw other refl in absurd (cc (sym dropped ∙ e))
]

check_token-IsAuthenticated :
    (calls : List ℕ → Calls ValidateTokenResponse) (header : List ℕ) (o : Option (List ℕ))
    (u : AuthUser)
    → bearer (split b' ' header) ≡ o
    → check_token calls o ≡ accepted u
    → IsAuthenticated calls (some header) u
unfolding validate_token
check_token-IsAuthenticated calls header none u named e = absurd (unauthorized-ne_accepted e)
check_token-IsAuthenticated calls header (some []) u named e = absurd (unauthorized-ne_accepted e)
check_token-IsAuthenticated calls header (some (c ∷ cs)) u named e =
    let (others, words) = bearer-words (split b' ' header) (c ∷ cs) named in
    record {
      header = header;
      given = refl;
      token = c ∷ cs;
      others = others;
      words = words;
      some_token = λ nil. cc nil;
      validated_token = validated (calls (c ∷ cs)) u (retry (calls (c ∷ cs)) 2 500).result refl e;
    }

-- A request that the guard lets through has the word `Bearer` and a token in its header. One of at
-- most two calls to validate that token was answered, and those before it failed. The answer says
-- that the token is valid, and names the user by an identifier, which is the user of the request
-- and is not empty.
pub can_activate-IsAuthenticated :
    (calls : List ℕ → Calls ValidateTokenResponse) (authorization : Option (List ℕ)) (u : AuthUser)
    → can_activate calls authorization ≡ accepted u
    → IsAuthenticated calls authorization u
unfolding can_activate extract_token_from_header
can_activate-IsAuthenticated calls none u e = absurd (unauthorized-ne_accepted e)
can_activate-IsAuthenticated calls (some header) u e =
    check_token-IsAuthenticated calls header (bearer (split b' ' header)) u refl e
