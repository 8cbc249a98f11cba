-- ===== src/Ad/Created.antt =====
-- What a new draft is.
use bazos.Base.{
  ◌≡◌, sym, ap, ◌∙◌, Option, none, some, false, String, ◌==◌, nat_eq, string_eq, option_eq, ==-iff,
  &&-eq-true, find_first, find_first-test, length, Bool,
}
use bazos.Store.{Store, BazosAd, BazosIdentity, PublishStatus, bazos_ad, bazos_identity}
use bazos.Store.Runs.{
  Ends, bind-Ends, return-Ends, throw_if-Ends, or_throw-Ends, find_where-Ends, create-Ends,
}
use bazos.Ad.Product.{CreateBazosAdDraftDto, normalize_media}
use bazos.Ad.Ensure.{CatalogClient}
use bazos.Ad.Drafts.{create_draft, new_draft, or_no_stock, is_own_identity}

-- A draft of an identity of the user, under the account of the identity, that is not on Bazos.
pub record IsDraftOf (user_id : String) (dto : CreateBazosAdDraftDto) (s : Store) (ad : BazosAd)
    : Type 0 where
  pub of_identity : BazosIdentity
  pub is_it : of_identity.id ≡ dto.identity_id
  pub owned : of_identity.user_id ≡ some user_id
  pub found : find_first (is_own_identity dto.identity_id user_id) s.identities ≡ some of_identity
  pub account : of_identity.account_id ≡ some ad.account_id
  pub identity : ad.identity_id ≡ some dto.identity_id
  pub is_draft : ad.publish_status ≡ PublishStatus.draft
  pub unlisted : ad.bazos_ad_id ≡ none
  pub unchallenged : ad.challenge_state ≡ none
  pub stock : ad.stock_quantity ≡ or_no_stock dto.stock_quantity
  pub has_photo : (length (normalize_media dto.media) == 0) ≡ false

-- A draft that is created belongs to an identity of the user and to the account of that identity.
-- It has the status `draft`, no number on Bazos, and at least one photo was given for it.
pub create_draft-IsDraftOf :
    (client : Option CatalogClient) (user_id : String) (dto : CreateBazosAdDraftDto) (own : Bool)
    (s u : Store) (ad : BazosAd)
    → Ends (create_draft client user_id dto own) s ad u
    → IsDraftOf user_id dto s ad
unfolding create_draft new_draft
create_draft-IsDraftOf client user_id dto own s u ad e =
    let (o, _, looked, e1) = bind-Ends e in
    let (i, _, had, e2) = bind-Ends e1 in
    let (account_id, _, linked, e3) = bind-Ends e2 in
    let (_, _, guarded, e4) = bind-Ends e3 in
    let (product_id, t, _, e5) = bind-Ends e4 in
    let (row, _, made, e6) = bind-Ends e5 in
    let (_, _, _, e7) = bind-Ends e6 in
    let hit : find_first (is_own_identity dto.identity_id user_id) s.identities ≡ some i =
      (find_where-Ends bazos_identity _ looked).0 ∙ (or_throw-Ends _ _ had).0 in
    let (same_id, same_user) =
      &&-eq-true _ _
        (find_first-test (is_own_identity dto.identity_id user_id) s.identities i hit) in
    let fresh = new_draft account_id dto product_id (normalize_media dto.media) in
    let is_row : fresh t.next_id ≡ ad = create-Ends bazos_ad fresh made ∙ (return-Ends e7).0 in
    record {
      of_identity = i;
      is_it = (==-iff i.id dto.identity_id).0 same_id;
      owned = (==-iff i.user_id (some user_id)).0 same_user;
      found = hit;
      account = (or_throw-Ends _ _ linked).0 ∙ ap (λ (a : BazosAd). some a.account_id) is_row;
      identity = ap (λ (a : BazosAd). a.identity_id) (sym is_row);
      is_draft = ap (λ (a : BazosAd). a.publish_status) (sym is_row);
      unlisted = ap (λ (a : BazosAd). a.bazos_ad_id) (sym is_row);
      unchallenged = ap (λ (a : BazosAd). a.challenge_state) (sym is_row);
      stock = ap (λ (a : BazosAd). a.stock_quantity) (sym is_row);
      has_photo = (throw_if-Ends _ _ guarded).0;
    }
