-- ===== src/Publisher/Asked.antt =====
-- What the policy is asked about an ad, and whose ad it is.
use bazos.Base.{
  ℕ, ◌≡◌, refl, sym, ap, ◌∙◌, Option, none, some, List, [], ◌∷◌, true, Exists, Exists-weaken,
  String, any, &&-eq-true, find_first-test, find_first-Exists, ◌&&◌, ◌==◌, nat_eq, string_eq,
  option_eq, ==-iff, Bool-cases, inl, inr,
}
use bazos.Store.{Store, BazosAd, BazosIdentity}
use bazos.Store.Runs.{Ends, bind-Ends, return-Ends, or_throw-Ends}
use bazos.Policy.Input.{PolicyCheckInput, Evidence}
use bazos.Publisher.Queue.{policy_input, is_identity_of_user, is_ad_of_user, find_ad_for_user}

-- The policy is asked about this ad: under its identity, in its category, for its product, and with
-- the evidence that is given.
pub record IsAskedOf (ad : BazosAd) (duplicate content : Option Evidence) (input : PolicyCheckInput)
    : Type 0 where
  pub identity : ad.identity_id ≡ some input.identity_id
  pub category : ad.category ≡ some input.bazos_category
  pub product : input.product_id ≡ ad.product_id
  pub itself : input.ad_id ≡ some ad.id
  pub duplicate_evidence : input.public_duplicate_check ≡ duplicate
  pub content_evidence : input.content_policy ≡ content

-- The ad is under an identity of the user.
abbrev pub IsOwned : String → Store → BazosAd → Type 0
IsOwned user_id s ad =
    Exists (λ (i : BazosIdentity). (i.user_id ≡ some user_id) × (ad.identity_id ≡ some i.id))
      s.identities

pub policy_input-Ends :
    (ad : BazosAd) (duplicate content : Option Evidence) {s t : Store} {input : PolicyCheckInput}
    → Ends (policy_input ad duplicate content) s input t
    → IsAskedOf ad duplicate content input × (s ≡ t)
policy_input-Ends ad duplicate content e =
    let (id, _, has_id, e1) = bind-Ends e in
    let (category, _, has_category, e2) = bind-Ends e1 in
    let (identified, kept) = or_throw-Ends _ _ has_id in
    let (categorised, kept_too) = or_throw-Ends _ _ has_category in
    let (made, kept_last) = return-Ends e2 in
    (
      record {
        identity = identified ∙ ap (λ (r : PolicyCheckInput). some r.identity_id) made;
        category = categorised ∙ ap (λ (r : PolicyCheckInput). some r.bazos_category) made;
        product = sym (ap (λ (r : PolicyCheckInput). r.product_id) made);
        itself = sym (ap (λ (r : PolicyCheckInput). r.ad_id) made);
        duplicate_evidence = sym (ap (λ (r : PolicyCheckInput). r.public_duplicate_check) made);
        content_evidence = sym (ap (λ (r : PolicyCheckInput). r.content_policy) made);
      },
      kept ∙ (kept_too ∙ kept_last),
    )

identity-owned :
    (user_id : String) (identities : List BazosIdentity) (id : ℕ)
    → is_identity_of_user user_id identities id ≡ true
    → Exists (λ (i : BazosIdentity). (i.user_id ≡ some user_id) × (some id ≡ some i.id)) identities
unfolding is_identity_of_user any
identity-owned user_id [] id e = absurd (cc e)
identity-owned user_id (i ∷ is) id e = elim (Bool-cases (i.id == id && i.user_id == some user_id)) [
  | inl hit ↦
      let (same, mine) = &&-eq-true _ _ hit in
      inl ((==-iff _ _).0 mine, ap some (sym ((==-iff i.id id).0 same)))
  | inr out ↦ inr (identity-owned user_id is id (sym (rw out refl) ∙ e))
]

pub is_ad_of_user-IsOwned :
    (user_id : String) (s : Store) (ad : BazosAd) (o : Option ℕ)
    → ad.identity_id ≡ o
    → is_ad_of_user user_id s.identities o ≡ true
    → IsOwned user_id s ad
is_ad_of_user-IsOwned user_id s ad none has e = absurd (cc e)
is_ad_of_user-IsOwned user_id s ad (some id) has e =
    Exists-weaken _ (λ i (mine, same). (mine, has ∙ same)) s.identities
      (identity-owned user_id s.identities id e)

-- What holds of every ad of the user under an identifier, holds of the one that is found.
pub find_ad_for_user-Ends :
    (id : ℕ) (user_id : String) {s t : Store} {ad : BazosAd}
    → Ends (find_ad_for_user id user_id) s ad t
    → (ad.id ≡ id)
      × IsOwned user_id s ad
      × (s ≡ t)
      × ((P : BazosAd → Type 0) → P ad → Exists P s.ads)
unfolding find_ad_for_user
find_ad_for_user-Ends id user_id {s} {ad} e =
    let (found, kept) = or_throw-Ends _ _ (record { value = e.value; store = e.store }) in
    let (is_it, mine) = &&-eq-true _ _ (find_first-test _ s.ads ad found) in
    (
      (==-iff _ _).0 is_it,
      is_ad_of_user-IsOwned user_id s ad ad.identity_id refl mine,
      kept,
      λ P p. find_first-Exists _ P s.ads ad found p,
    )
