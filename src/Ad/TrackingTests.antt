-- ===== src/Ad/TrackingTests.antt =====
-- The theorems on followed ads at a concrete store.
use bazos.Base.{
  ◌≡◌, refl, some, [], ◌∷◌, true, Exists, arith, Permᴰ, ◌-◌, update_where, find_first, ℕ_discrete,
  Optional-discrete,
}
use bazos.Store.{Store, BazosAd, empty_check, published, update, PublishStatus-discrete}
use bazos.Store.Runs.{Ends}
use bazos.Fixtures.{shop, bicycle, noon, hour, halves}
use bazos.Events.Sweep.{IsOrder}
use bazos.Ad.Tracking.{
  TrackingEnv, gone, no_check, is_availability_check_due, schedule_next_availability_check,
}
use bazos.Ad.Refresh.{due_ad, refresh_due_external_status}
use bazos.Ad.Schedule.{IsRandom, schedule_next_availability_check-ignored, rescheduled}
use bazos.Ad.Deleted.{IsListed, refresh_due_external_status-deletes}

id-IsOrder : IsOrder (λ ads. ads)
id-IsOrder [] = Permᴰ.nil
id-IsOrder (a ∷ ads) = Permᴰ.cons refl (id-IsOrder ads)

abbrev follower : TrackingEnv
follower = record {
  now = noon;
  random = halves;
  fetch_bazos_public_status = λ ad. some (gone "http_404");
  by_updated_at = λ ads. ads;
}

halves-IsRandom : IsRandom halves
halves-IsRandom n h = ground arith

abbrev followed : BazosAd
followed = record bicycle {
  bazos_ad_id = some "12345";
  publish_status = published;
  last_policy_check = some (record empty_check {
    bazos_availability_check =
        some (record no_check { enabled = true; next_check_at = some (noon - hour) });
  });
}

abbrev following : Store
following = record shop { ads = followed ∷ [] }

abbrev next_row : BazosAd
next_row = rescheduled follower followed noon "unknown" followed

followed-Ends :
    Ends
      (schedule_next_availability_check follower followed noon "unknown")
      following
      next_row
      (record shop { ads = next_row ∷ [] })
unfolding schedule_next_availability_check update_where find_first ℕ_discrete update
followed-Ends = record { value = refl; store = refl }

-- An ad that expired an hour ago and is not followed.
abbrev expired : BazosAd
expired = record bicycle {
  bazos_ad_id = some "12345";
  publish_status = published;
  expires_at = some (noon - hour);
}

abbrev expired_row : BazosAd
expired_row = rescheduled follower expired noon "unknown" expired

expired-Ends :
    Ends
      (schedule_next_availability_check follower expired noon "unknown")
      (record shop { ads = expired ∷ [] })
      expired_row
      (record shop { ads = expired_row ∷ [] })
unfolding schedule_next_availability_check update_where find_first ℕ_discrete update
expired-Ends = record { value = refl; store = refl }

schedule_next_availability_check-ignored_example :
    is_availability_check_due expired_row noon ≡ is_availability_check_due expired noon
unfolding find_first ℕ_discrete
schedule_next_availability_check-ignored_example =
    schedule_next_availability_check-ignored follower expired noon "unknown"
      (record shop { ads = expired ∷ [] }) (record shop { ads = expired_row ∷ [] }) expired_row refl
      refl expired-Ends noon

refresh_due_external_status-deletes_example :
    ¬ Exists (IsListed 20) (refresh_due_external_status follower following).1.ads
unfolding due_ad Optional-discrete PublishStatus-discrete
refresh_due_external_status-deletes_example =
    refresh_due_external_status-deletes follower following followed "http_404" id-IsOrder refl refl
