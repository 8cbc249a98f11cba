-- ===== src/Identity/Calls.antt =====
-- Histories of calls of the identity service, and what they can make verified.
use bazos.Identity.Sessions.{
  start_verification_session, expire_verification_session, complete_verification_session,
  complete_manual_verification_session, record_verification_challenge, mark_verified,
}
use bazos.Identity.Record.{
  update_identity, mark_challenge, decrement_active_ad_count, increment_active_ad_count,
  reserve_publish_slot, record_category_publish,
}
use bazos.Base.{
  ℕ, ◌≡◌, ◌≢◌, ◌⊎◌, inl, inr, refl, Option, none, some, Bool, true, List, [], ◌∷◌, Exists, String,
  ℕ_discrete, Bool-cases, sym, ◌∙◌,
}
use bazos.Store.{Store, BazosAccount, M, bazos_identity, bazos_account, bad_request}
use bazos.Store.Avoids.{
  IsOther, avoids_rules, >>=-Avoids, throw_if-Avoids, create-Avoids, find_where-Avoids,
}
use bazos.Identity.Input.{
  MarkChallengeDto, UpdateBazosIdentityDto, StartVerificationSessionDto,
  CompleteManualVerificationSessionDto, CompleteVerificationSessionDto,
}
use bazos.Identity.Accounts.{
  CreateBazosIdentityDto, create_identity, linked_account, new_identity, claim_account,
  claim_or_create, find_account, ensure_account_for_user, resolve_account_for_user, with_email,
  normalized_email, reject_foreign, has_foreign_identity,
}
use bazos.Identity.Verified.{
  IsVerified, IsVerifiedRow, NeverVerifies, mark_challenge-NeverVerifies,
  update_identity-NeverVerifies, decrement_active_ad_count-NeverVerifies,
  increment_active_ad_count-NeverVerifies, reserve_publish_slot-NeverVerifies,
  record_category_publish-NeverVerifies, start_verification_session-NeverVerifies,
  expire_verification_session-NeverVerifies, record_verification_challenge-NeverVerifies,
  complete_verification_session-NeverVerifies, complete_manual_verification_session-NeverVerifies,
  mark_verified-NeverVerifies,
}

accounts-IsOther : IsOther bazos_identity bazos_account
accounts-IsOther = record { kept = λ rs s. refl }

module _ (i : ℕ) where
  claimed : (user_id : String) (a : BazosAccount) → NeverVerifies i (claim_account user_id a)
  unfolding claim_account
  claimed user_id a = search (avoids_rules, accounts-IsOther)

  found_account : (email : List ℕ) (user_id : String) → NeverVerifies i (find_account email user_id)
  unfolding find_account
  found_account email user_id = record { at = λ s e. e }

  claimed_or_created :
      (now : ℕ) (user_id : String) (email : List ℕ) (o : Option BazosAccount)
      → NeverVerifies i (claim_or_create now user_id email o)
  claimed_or_created now user_id email none = search (avoids_rules, accounts-IsOther)
  claimed_or_created now user_id email (some a) = claimed user_id a

  by_email :
      (now : ℕ) (user_id : String) (email : List ℕ) → NeverVerifies i (with_email now user_id email)
  by_email now user_id [] = search avoids_rules
  by_email now user_id (c ∷ cs) =
      search (avoids_rules, found_account, claimed_or_created now user_id (c ∷ cs))

  rejected : (user_id : String) (a : BazosAccount) → NeverVerifies i (reject_foreign user_id a)
  unfolding reject_foreign
  rejected user_id a = record {
    at = λ s.
        (throw_if-Avoids bazos_identity (IsVerifiedRow i) (has_foreign_identity user_id a s)
            bad_request).at
          s;
  }

  linked :
      (now : ℕ) (user_id : String) (dto : CreateBazosIdentityDto) (o : Option ℕ)
      → NeverVerifies i (linked_account now user_id dto o)
  unfolding ensure_account_for_user resolve_account_for_user
  linked now user_id dto none = by_email now user_id (normalized_email dto.bazos_email)
  linked now user_id dto (some a) = search (avoids_rules, rejected, claimed) depth 20

  create_identity-NeverVerifies :
      (now : ℕ) (user_id : String) (dto : CreateBazosIdentityDto)
      → NeverVerifies i (create_identity now user_id dto)
  unfolding create_identity
  create_identity-NeverVerifies now user_id dto =
      >>=-Avoids _ _ (find_where-Avoids _ _ _ _) λ existing.
        >>=-Avoids _ _ (throw_if-Avoids _ _ _ _) λ _.
          >>=-Avoids _ _ (linked now user_id dto dto.account_id)
            λ account_id. create-Avoids _ _ (new_identity user_id account_id dto) (λ n h. cc (h.1))

-- A call of the service, with the time at which it is made.
pub data Call : Type 0 where
  creates : ℕ → String → CreateBazosIdentityDto → Call
  updates : ℕ → String → UpdateBazosIdentityDto → Call
  starts : ℕ → ℕ → String → StartVerificationSessionDto → Call
  completes : ℕ → ℕ → ℕ → String → CompleteVerificationSessionDto → Call
  completes_manually : ℕ → ℕ → ℕ → String → CompleteManualVerificationSessionDto → Call
  meets_challenge : ℕ → ℕ → String → MarkChallengeDto → Call
  expires : ℕ → ℕ → String → Option String → Call
  marks_verified : ℕ → ℕ → String → CompleteVerificationSessionDto → Call
  marks_challenge : ℕ → String → MarkChallengeDto → Call
  decrements : ℕ → Call
  increments : ℕ → Call
  reserves : ℕ → ℕ → ℕ → Call
  records_category : ℕ → ℕ → String → Call

-- The store after a call, also where the call throws.
unfoldable pub perform : Call → Store → Store
perform (creates now user_id dto) s = (create_identity now user_id dto s).1
perform (updates id user_id dto) s = (update_identity id user_id dto s).1
perform (starts now id user_id dto) s = (start_verification_session now id user_id dto s).1
perform (completes now id session_id user_id dto) s =
    (complete_verification_session now id session_id user_id dto s).1
perform (completes_manually now id session_id user_id dto) s =
    (complete_manual_verification_session now id session_id user_id dto s).1
perform (meets_challenge id session_id user_id dto) s =
    (record_verification_challenge id session_id user_id dto s).1
perform (expires id session_id user_id notes) s =
    (expire_verification_session id session_id user_id notes s).1
perform (marks_verified now id user_id dto) s = (mark_verified now id user_id dto s).1
perform (marks_challenge id user_id dto) s = (mark_challenge id user_id dto s).1
perform (decrements id) s = (decrement_active_ad_count id s).1
perform (increments id) s = (increment_active_ad_count id s).1
perform (reserves now id not_before) s = (reserve_publish_slot now id not_before s).1
perform (records_category now id category) s = (record_category_publish now id category s).1

unfoldable pub perform_all : List Call → Store → Store
perform_all [] s = s
perform_all (c ∷ cs) s = perform_all cs (perform c s)

-- The call says that a human has confirmed the verification of identity `i`.
abbrev pub Confirms : ℕ → Call → Type 0
Confirms i (completes now id session_id user_id dto) = (dto.human_confirmed ≡ true) × (i ≡ id)
Confirms i (completes_manually now id session_id user_id dto) =
    (dto.human_confirmed ≡ true) × (i ≡ id)
Confirms i (marks_verified now id user_id dto) = (dto.human_confirmed ≡ true) × (i ≡ id)
Confirms i c = ⊥

-- Either the call is such a confirmation, or it keeps an unverified identity unverified.
confirmed_or {ℓ} :
    {A : Type ℓ} (i id : ℕ) (b : Bool) (m : M A) (s : Store)
    → ((b ≡ true → i ≢ id) → NeverVerifies i m)
    → IsVerified i (m s).1
    → IsVerified i s ⊎ ((b ≡ true) × (i ≡ id))
confirmed_or i id b m s h v = elim (ℕ_discrete i id) [
  | no other ↦ inl ((h (λ _. other)).at s v)
  | yes same ↦ elim (Bool-cases b) [
    | inl confirmed ↦ inr (confirmed, same)
    | inr unconfirmed ↦ inl ((h (λ e. absurd (cc (sym e ∙ unconfirmed)))).at s v)
  ]
]

-- A call makes an identity verified only if it says that a human confirmed it.
perform-IsVerified :
    (i : ℕ) (c : Call) (s : Store) → IsVerified i (perform c s) → IsVerified i s ⊎ Confirms i c
unfolding perform
perform-IsVerified i (creates now user_id dto) s v =
    inl ((create_identity-NeverVerifies i now user_id dto).at s v)
perform-IsVerified i (updates id user_id dto) s v =
    inl ((update_identity-NeverVerifies i id user_id dto).at s v)
perform-IsVerified i (starts now id user_id dto) s v =
    inl ((start_verification_session-NeverVerifies i now id user_id dto).at s v)
perform-IsVerified i (completes now id session_id user_id dto) s v =
    confirmed_or i id dto.human_confirmed _ s
      (complete_verification_session-NeverVerifies i now id session_id user_id dto) v
perform-IsVerified i (completes_manually now id session_id user_id dto) s v =
    confirmed_or i id dto.human_confirmed _ s
      (complete_manual_verification_session-NeverVerifies i now id session_id user_id dto) v
perform-IsVerified i (meets_challenge id session_id user_id dto) s v =
    inl ((record_verification_challenge-NeverVerifies i id session_id user_id dto).at s v)
perform-IsVerified i (expires id session_id user_id notes) s v =
    inl ((expire_verification_session-NeverVerifies i id session_id user_id notes).at s v)
perform-IsVerified i (marks_verified now id user_id dto) s v =
    confirmed_or i id dto.human_confirmed _ s (mark_verified-NeverVerifies i now id user_id dto) v
perform-IsVerified i (marks_challenge id user_id dto) s v =
    inl ((mark_challenge-NeverVerifies i id user_id dto).at s v)
perform-IsVerified i (decrements id) s v =
    inl ((decrement_active_ad_count-NeverVerifies i id).at s v)
perform-IsVerified i (increments id) s v =
    inl ((increment_active_ad_count-NeverVerifies i id).at s v)
perform-IsVerified i (reserves now id not_before) s v =
    inl ((reserve_publish_slot-NeverVerifies i now id not_before).at s v)
perform-IsVerified i (records_category now id category) s v =
    inl ((record_category_publish-NeverVerifies i now id category).at s v)

-- Over any history of calls of the identity service, an identity that is verified at the end was
-- verified at the start, or some call of the history says that a human confirmed it.
pub perform_all-IsVerified :
    (i : ℕ) (cs : List Call) (s : Store)
    → IsVerified i (perform_all cs s)
    → IsVerified i s ⊎ Exists (Confirms i) cs
unfolding perform_all
perform_all-IsVerified i [] s v = inl v
perform_all-IsVerified i (c ∷ cs) s v = elim (perform_all-IsVerified i cs (perform c s) v) [
  | inl before ↦ elim (perform-IsVerified i c s before) [
    | inl at_first ↦ inl at_first
    | inr now ↦ inr (inl now)
  ]
  | inr later ↦ inr (inr later)
]
