-- ===== src/Ad/Edited.antt =====
-- What the editing of an ad changes, and who sees the ads of an identity.
use bazos.Base.{
  Option, none, ◌⊎◌, inl, inr, Bool-cases, ℕ, ◌≡◌, refl, sym, ap, ◌∙◌, subst, some, true, false,
  String, ◌==◌, nat_eq, string_eq, option_eq, truthy, Bool, ◌||◌, List, ◌≢◌, update_where,
}
use mathlib.Core.Path.{fun_ext}
use mathlib.Core.Option
use bazos.Store.{Store, BazosAd, check_object, bazos_ad, by_key, find_many, update, ◌>>=◌}
use bazos.Store.Keys.{by_key-update_self, by_key-update_ne}
use bazos.Store.Runs.{Ends, bind-Ends, throw_if-Ends, update-Ends, ok_inj}
use bazos.Ad.{find_by_id_for_user}
use bazos.Ad.Editing.{
  UpdateBazosAdDraftDto, update_draft, edited, build_updated_policy_state, changes_options,
  has_value, EditingEnv, AdQuery, find_many_ads, is_listed_for, resolve_pending_bazos_updates,
}

-- What an edit leaves as it is.
pub record IsSameListing (old new : BazosAd) : Type 0 where
  pub account : new.account_id ≡ old.account_id
  pub identity : new.identity_id ≡ old.identity_id
  pub product : new.product_id ≡ old.product_id
  pub number : new.bazos_ad_id ≡ old.bazos_ad_id
  pub password : new.bazos_edit_password ≡ old.bazos_edit_password
  pub expiry : new.expires_at ≡ old.expires_at
  pub activity : new.is_active ≡ old.is_active
  pub status : new.publish_status ≡ old.publish_status
  pub challenge : new.challenge_state ≡ old.challenge_state

edited-IsSameListing :
    (now : ℕ) (ad row : BazosAd) (dto : UpdateBazosAdDraftDto)
    → IsSameListing row (edited now ad dto row)
unfolding edited
edited-IsSameListing now ad row dto = record {
  account = refl;
  identity = refl;
  product = refl;
  number = refl;
  password = refl;
  expiry = refl;
  activity = refl;
  status = refl;
  challenge = refl;
}

ends_in_true : (a b c : Bool) → (a || b || c || true) ≡ true
ends_in_true true b c = refl
ends_in_true false true c = refl
ends_in_true false false true = refl
ends_in_true false false false = refl

module _ (now : ℕ) (ad : BazosAd) (dto : UpdateBazosAdDraftDto) (number : String)
    (e : ad.bazos_ad_id ≡ some number) (numbered : (number == "") ≡ false) where
  changed_options : changes_options ad dto ≡ true
  unfolding changes_options truthy
  changed_options =
      rw (e, numbered)
        (ends_in_true (truthy dto.rubric) (truthy dto.price_option) (has_value dto.media))

  updated-pending :
      (build_updated_policy_state now ad dto).pending_bazos_update
      ≡ some (record { saved_at = now; bazos_ad_id = number })
  unfolding build_updated_policy_state
  updated-pending = rw (e, numbered) refl

  edited-pending :
      (row : BazosAd)
      → (check_object (edited now ad dto row).last_policy_check).pending_bazos_update
        ≡ some (record { saved_at = now; bazos_ad_id = number })
  unfolding edited
  edited-pending row = rw changed_options updated-pending

-- What is pending after an edit of an ad: the update of its number on Bazos, if it has one.
abbrev pub IsPending : ℕ → Option String → BazosAd → Type 0
IsPending now number new =
    (truthy number ≡ false)
    ⊎ ((n : String) × (number ≡ some n)
        × ((check_object new.last_policy_check).pending_bazos_update
            ≡ some (record { saved_at = now; bazos_ad_id = n })))

edited-IsPending :
    (now : ℕ) (ad row : BazosAd) (dto : UpdateBazosAdDraftDto) (number : Option String)
    → ad.bazos_ad_id ≡ number
    → IsPending now number (edited now ad dto row)
unfolding truthy
edited-IsPending now ad row dto none e = inl refl
edited-IsPending now ad row dto (some n) e = elim (Bool-cases (n == "")) [
  | inl empty ↦ inl (rw empty refl)
  | inr numbered ↦ inr (n, refl, edited-pending now ad dto n e numbered row)
]

-- What is written when the row with the key `id` becomes `new`: no other row and no other table.
pub record IsOnlyWrite (id : ℕ) (new : BazosAd) (s u : Store) : Type 0 where
  pub written : by_key (λ (a : BazosAd). a.id) id u.ads ≡ some new
  pub others :
      (k : ℕ)
      → k ≢ id
      → by_key (λ (a : BazosAd). a.id) k u.ads ≡ by_key (λ (a : BazosAd). a.id) k s.ads
  pub elsewhere : record s { ads = u.ads } ≡ u

edited-IsOnlyWrite :
    (now id : ℕ) (ad old new : BazosAd) (dto : UpdateBazosAdDraftDto) (s : Store)
    → by_key (λ (a : BazosAd). a.id) id s.ads ≡ some old
    → edited now ad dto old ≡ new
    → IsOnlyWrite id new s
        (record s { ads = update_where (λ a. a.id == id) (edited now ad dto) s.ads })
unfolding edited
edited-IsOnlyWrite now id ad old new dto s found made = record {
  written =
      by_key-update_self (λ (a : BazosAd). a.id) (edited now ad dto) (λ a. refl) id s.ads
      ∙ (ap (Option.map (edited now ad dto)) found ∙ ap some made);
  others = λ k other.
      by_key-update_ne (λ (a : BazosAd). a.id) (edited now ad dto) (λ a. refl) id k s.ads other;
  elsewhere = refl;
}

-- An edit of a user's ad that ends writes the row under that identifier, which is the answer, and
-- nothing else: every ad under another identifier and every other table stays. The row keeps its
-- account, identity, product, number and password on Bazos, expiry, activity, status and challenge.
-- If the ad that was read has a number on Bazos, then the row says that the update of that number is
-- pending since the edit.
pub update_draft-keeps :
    (now id : ℕ) (user_id : String) (dto : UpdateBazosAdDraftDto) (ad new : BazosAd) (s u : Store)
    → Ends (find_by_id_for_user id user_id) s ad s
    → Ends (update_draft now id user_id dto) s new u
    → IsOnlyWrite id new s u
      × ((old : BazosAd) × (by_key (λ (a : BazosAd). a.id) id s.ads ≡ some old)
          × IsSameListing old new)
      × IsPending now ad.bazos_ad_id new
unfolding update_draft
update_draft-keeps now id user_id dto ad new s u mine e =
    let (x, t, found, e1) = bind-Ends e in
    let (_, v, guarded, e2) = bind-Ends e1 in
    let same : x ≡ ad = ok_inj (sym found.value ∙ mine.value) in
    let kept : v ≡ s = sym (sym mine.store ∙ (found.store ∙ (throw_if-Ends _ _ guarded).1)) in
    let (old, read, made, stored) =
      update-Ends bazos_ad id (edited now x dto)
        (subst (λ w. Ends (update bazos_ad id (edited now x dto)) w new u) kept e2) in
    let number = ap (λ (a : BazosAd). a.bazos_ad_id) same in
    (
      subst (λ w. IsOnlyWrite id new s w) stored
          (edited-IsOnlyWrite now id x old new dto s read made),
      (old, read, subst (IsSameListing old) made (edited-IsSameListing now x old dto)),
      subst (IsPending now ad.bazos_ad_id) made
          (edited-IsPending now x old dto ad.bazos_ad_id number),
    )

asked_for_any_user :
    (query : AdQuery) (k : ℕ) (own other : List ℕ)
    → query.identity_id ≡ some k
    → (ad : BazosAd) → is_listed_for query own ad ≡ is_listed_for query other ad
unfolding is_listed_for
asked_for_any_user query k own other e ad = rw e refl

-- A list of ads that is asked for by an identity is the same for every user, whosever the identity
-- is: the result and the store afterwards do not depend on the user.
pub find_many_ads-any_user :
    (env : EditingEnv) (user_id other_id : String) (query : AdQuery) (k : ℕ) (s : Store)
    → query.identity_id ≡ some k
    → find_many_ads env user_id query s ≡ find_many_ads env other_id query s
unfolding find_many_ads
find_many_ads-any_user env user_id other_id query k s e =
    ap
      (λ p.
        (do
          ads ← find_many bazos_ad p
          resolve_pending_bazos_updates env (env.tracking.by_updated_at ads))
          s)
      (fun_ext (asked_for_any_user query k _ _ e))
