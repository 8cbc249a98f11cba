-- ===== src/Identity/Verified.antt =====
-- Who can become verified: only the identity for which a human confirms the check on bazos.cz.
use bazos.Base.{
  ℕ, ◌≡◌, ◌≢◌, Option, none, some, Bool, true, false, Exists, String, arith, refl, not, sym, ◌∙◌,
}
use bazos.Store.{
  Store, BazosIdentity, BazosVerificationSession, verified, M, bazos_identity,
  bazos_verification_session, bazos_identity_category_cadence, ReviewState, update, bad_request,
  BazosIdentityCategoryCadence,
}
use bazos.Store.Avoids.{
  Avoids, IsOther, avoids_rules, >>=-Avoids, update-Avoids, or_throw-Avoids, guard-Avoids,
  return-Avoids, update_other-Avoids, create_other-Avoids,
}
use bazos.Identity.Input.{
  DateInput, absent, invalid, at, MarkChallengeDto, UpdateBazosIdentityDto,
  StartVerificationSessionDto, CompleteManualVerificationSessionDto, CompleteVerificationSessionDto,
}
use bazos.Identity.Record.{
  find_by_id, to_date, update_identity, assert_challenge_state, challenged,
  apply_identity_challenge_state, mark_challenge, fewer_ads, decrement_active_ad_count,
  increment_active_ad_count, reserve_publish_slot, record_category_publish, upsert,
}
use bazos.Identity.Sessions.{
  unready, get_awaiting_verification_session, start_verification_session,
  expire_verification_session, complete_verification_session, complete_manual_verification_session,
  record_verification_challenge, mark_verified, expire_and_throw, check_time, complete, verify_with,
}

-- The row of a verified identity.
abbrev pub IsVerifiedRow : ℕ → BazosIdentity → Type 0
IsVerifiedRow i r = (r.id ≡ i) × (r.status ≡ verified)

abbrev pub IsVerified : ℕ → Store → Type 0
IsVerified i s = Exists (IsVerifiedRow i) s.identities

-- The operation makes the identity verified in no store in which it is not.
abbrev pub NeverVerifies {ℓ} : {A : Type ℓ} → ℕ → M A → Type 0
NeverVerifies i m = Avoids bazos_identity (IsVerifiedRow i) m

sessions-IsOther : IsOther bazos_identity bazos_verification_session
sessions-IsOther = record { kept = λ rs s. refl }

cadences-IsOther : IsOther bazos_identity bazos_identity_category_cadence
cadences-IsOther = record { kept = λ rs s. refl }

module _ (i : ℕ) where
  found_by_id : (id : ℕ) (user_id : String) → NeverVerifies i (find_by_id id user_id)
  found_by_id id user_id = search avoids_rules

  asserted : (r : Option ReviewState) → NeverVerifies i (assert_challenge_state r)
  asserted none = search avoids_rules
  asserted (some r) = search avoids_rules

  dated : (d : DateInput) → NeverVerifies i (to_date d)
  dated absent = search avoids_rules
  dated invalid = search avoids_rules
  dated (at t) = search avoids_rules

  challenged_one :
      (id : ℕ) (r : ReviewState) (notes : Option String)
      → NeverVerifies i (apply_identity_challenge_state id r notes)
  unfolding apply_identity_challenge_state
  challenged_one id r notes = update-Avoids _ _ id (challenged r notes) (λ x k h. h)

  unready_not_verified : (x : BazosIdentity) → IsVerifiedRow i (unready x) → IsVerifiedRow i x
  unready_not_verified x h = cc (h.1)

  awaiting : (id session_id : ℕ) → NeverVerifies i (get_awaiting_verification_session id session_id)
  awaiting id session_id = search avoids_rules

  pub mark_challenge-NeverVerifies :
      (id : ℕ) (user_id : String) (dto : MarkChallengeDto)
      → NeverVerifies i (mark_challenge id user_id dto)
  unfolding mark_challenge
  mark_challenge-NeverVerifies id user_id dto =
      search (avoids_rules, found_by_id, asserted, challenged_one)

  pub update_identity-NeverVerifies :
      (id : ℕ) (user_id : String) (dto : UpdateBazosIdentityDto)
      → NeverVerifies i (update_identity id user_id dto)
  unfolding update_identity
  update_identity-NeverVerifies id user_id dto = search (avoids_rules, found_by_id)

  pub decrement_active_ad_count-NeverVerifies :
      (id : ℕ) → NeverVerifies i (decrement_active_ad_count id)
  unfolding decrement_active_ad_count
  decrement_active_ad_count-NeverVerifies id = >>=-Avoids _ _ (search avoids_rules) fewer
    where
      fewer : (found : Option BazosIdentity) → NeverVerifies i (fewer_ads found id)
      fewer none = search avoids_rules
      fewer (some r) = search avoids_rules

  pub increment_active_ad_count-NeverVerifies :
      (id : ℕ) → NeverVerifies i (increment_active_ad_count id)
  unfolding increment_active_ad_count
  increment_active_ad_count-NeverVerifies id = search avoids_rules

  pub reserve_publish_slot-NeverVerifies :
      (now id not_before : ℕ) → NeverVerifies i (reserve_publish_slot now id not_before)
  unfolding reserve_publish_slot
  reserve_publish_slot-NeverVerifies now id not_before = search avoids_rules

  pub record_category_publish-NeverVerifies :
      (now id : ℕ) (category : String) → NeverVerifies i (record_category_publish now id category)
  unfolding record_category_publish
  record_category_publish-NeverVerifies now id category = >>=-Avoids _ _ (search avoids_rules) put
    where
      put :
          (found : Option BazosIdentityCategoryCadence)
          → NeverVerifies i (upsert now id category found)
      put none = search (avoids_rules, cadences-IsOther)
      put (some c) = search (avoids_rules, cadences-IsOther)

  pub start_verification_session-NeverVerifies :
      (now id : ℕ) (user_id : String) (dto : StartVerificationSessionDto)
      → NeverVerifies i (start_verification_session now id user_id dto)
  unfolding start_verification_session
  start_verification_session-NeverVerifies now id user_id dto =
      search (avoids_rules, found_by_id, dated, sessions-IsOther, unready_not_verified) depth 20

  pub expire_verification_session-NeverVerifies :
      (id session_id : ℕ) (user_id : String) (notes : Option String)
      → NeverVerifies i (expire_verification_session id session_id user_id notes)
  unfolding expire_verification_session
  expire_verification_session-NeverVerifies id session_id user_id notes =
      search (avoids_rules, found_by_id, sessions-IsOther) depth 20

  pub record_verification_challenge-NeverVerifies :
      (id session_id : ℕ) (user_id : String) (dto : MarkChallengeDto)
      → NeverVerifies i (record_verification_challenge id session_id user_id dto)
  unfolding record_verification_challenge
  record_verification_challenge-NeverVerifies id session_id user_id dto =
      search (avoids_rules, found_by_id, awaiting, asserted, challenged_one, sessions-IsOther) depth
        20

  expired_and_thrown :
      (id session_id : ℕ) (user_id notes : String)
      → NeverVerifies i (expire_and_throw id session_id user_id notes)
  unfolding expire_and_throw
  expired_and_thrown id session_id user_id notes =
      search (avoids_rules, expire_verification_session-NeverVerifies)

  in_time :
      (now id session_id : ℕ) (user_id notes : String) (v : BazosVerificationSession)
      → NeverVerifies i (check_time now id session_id user_id notes v)
  unfolding check_time
  in_time now id session_id user_id notes v = search (avoids_rules, expired_and_thrown)

  -- Past the guard a human has confirmed, and another identity than `i` is meant.
  module _ (id : ℕ) (confirmed : Bool) (other : confirmed ≡ true → i ≢ id) where
    past_guard : not confirmed ≡ false → i ≢ id
    past_guard h = other (ground arith)

    verified_other :
        (f : BazosIdentity → BazosIdentity)
        → ((x : BazosIdentity) → (f x).id ≡ x.id)
        → not confirmed ≡ false
        → NeverVerifies i (update bazos_identity id f)
    verified_other f same h =
        update-Avoids _ _ id f λ x k v. absurd (past_guard h (sym v.0 ∙ (same x ∙ k)))

  pub complete_verification_session-NeverVerifies :
      (now id session_id : ℕ) (user_id : String) (dto : CompleteVerificationSessionDto)
      → (dto.human_confirmed ≡ true → i ≢ id)
      → NeverVerifies i (complete_verification_session now id session_id user_id dto)
  unfolding complete_verification_session
  complete_verification_session-NeverVerifies now id session_id user_id dto other =
      >>=-Avoids _ _ (found_by_id id user_id) λ _. >>=-Avoids _ _ (awaiting id session_id) λ v.
        >>=-Avoids _ _ (in_time now id session_id user_id _ v) λ _.
          guard-Avoids _ _ (not dto.human_confirmed) bad_request _ λ h.
            >>=-Avoids _ _ (or_throw-Avoids _ _ _ _) λ envelope.
              >>=-Avoids _ _ (dated dto.verification_expires_at) λ date.
                >>=-Avoids _ _
                  (update_other-Avoids _ _ session_id (complete now dto.notes) sessions-IsOther)
                  λ v.
                    >>=-Avoids _ _
                      (verified_other id dto.human_confirmed other
                        (verify_with envelope date dto.notes) (λ x. refl) h)
                      λ _. return-Avoids _ _ _

  pub complete_manual_verification_session-NeverVerifies :
      (now id session_id : ℕ) (user_id : String) (dto : CompleteManualVerificationSessionDto)
      → (dto.human_confirmed ≡ true → i ≢ id)
      → NeverVerifies i (complete_manual_verification_session now id session_id user_id dto)
  unfolding complete_manual_verification_session
  complete_manual_verification_session-NeverVerifies now id session_id user_id dto other =
      >>=-Avoids _ _ (found_by_id id user_id) λ _. >>=-Avoids _ _ (awaiting id session_id) λ v.
        >>=-Avoids _ _ (in_time now id session_id user_id _ v) λ _.
          guard-Avoids _ _ (not dto.human_confirmed) bad_request _ λ h.
            >>=-Avoids _ _ (dated dto.verification_expires_at) λ date.
              >>=-Avoids _ _ (search avoids_rules) λ account_id.
                >>=-Avoids _ _
                  (update_other-Avoids _ _ session_id (complete now dto.notes) sessions-IsOther)
                  λ v.
                    >>=-Avoids _ _ (verified_other id dto.human_confirmed other _ (λ x. refl) h)
                      λ _. return-Avoids _ _ _

  pub mark_verified-NeverVerifies :
      (now id : ℕ) (user_id : String) (dto : CompleteVerificationSessionDto)
      → (dto.human_confirmed ≡ true → i ≢ id)
      → NeverVerifies i (mark_verified now id user_id dto)
  unfolding mark_verified
  mark_verified-NeverVerifies now id user_id dto other =
      >>=-Avoids _ _ (found_by_id id user_id) λ _.
        guard-Avoids _ _ (not dto.human_confirmed) bad_request _ λ h.
          >>=-Avoids _ _ (or_throw-Avoids _ _ _ _) λ envelope.
            >>=-Avoids _ _ (dated dto.verification_expires_at) λ date.
              >>=-Avoids _ _ (create_other-Avoids _ _ _ sessions-IsOther) λ v.
                verified_other id dto.human_confirmed other (verify_with envelope date dto.notes)
                  (λ x. refl) h
