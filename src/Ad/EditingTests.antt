-- ===== src/Ad/EditingTests.antt =====
-- The theorems on edited and listed ads at concrete inputs.
use bazos.Base.{
  ◌≡◌, refl, none, some, [], ◌∷◌, ℕ_discrete, String-discrete, Optional-discrete, find_first,
  update_where, any, truthy,
}
use bazos.Store.{Store, BazosAd, published, by_key, update, PublishStatus-discrete, ◌>>=◌}
use bazos.Store.Runs.{Ends}
use bazos.Publisher.Queue.{is_identity_of_user}
use bazos.Ad.{find_by_id_for_user}
use bazos.Ad.Editing.{
  UpdateBazosAdDraftDto, update_draft, is_editable, edited, EditingEnv, AdQuery, find_many_ads,
}
use bazos.Ad.Edited.{
  IsOnlyWrite, IsSameListing, IsPending, update_draft-keeps, find_many_ads-any_user,
}
use bazos.Fixtures.{shop, bicycle, noon, halves}

abbrev listed_bicycle : BazosAd
listed_bicycle = record bicycle { bazos_ad_id = some "12345"; publish_status = published }

abbrev listed_shop : Store
listed_shop = record shop { ads = listed_bicycle ∷ [] }

abbrev cheaper : UpdateBazosAdDraftDto
cheaper = record {
  title = none;
  description = none;
  price = some 90000;
  rubric = none;
  price_option = none;
  category = none;
  location = none;
  stock_quantity = none;
  media = none;
}

abbrev cheaper_bicycle : BazosAd
cheaper_bicycle = edited noon listed_bicycle cheaper listed_bicycle

found-Ends : Ends (find_by_id_for_user 20 "eva") listed_shop listed_bicycle listed_shop
unfolding find_by_id_for_user is_identity_of_user find_first any ℕ_discrete String-discrete
    Optional-discrete
found-Ends = record { value = refl; store = refl }

edited-Ends :
    Ends
      (update_draft noon 20 "eva" cheaper)
      listed_shop
      cheaper_bicycle
      (record listed_shop { ads = cheaper_bicycle ∷ [] })
unfolding update_draft find_by_id_for_user is_identity_of_user is_editable find_first any truthy
    update_where update ◌>>=◌ ℕ_discrete String-discrete Optional-discrete PublishStatus-discrete
edited-Ends = record { value = refl; store = refl }

update_draft-keeps_example :
    IsOnlyWrite 20 cheaper_bicycle listed_shop (record listed_shop { ads = cheaper_bicycle ∷ [] })
    × ((old : BazosAd) × (by_key (λ (a : BazosAd). a.id) 20 listed_shop.ads ≡ some old)
        × IsSameListing old cheaper_bicycle)
    × IsPending noon (some "12345") cheaper_bicycle
update_draft-keeps_example =
    update_draft-keeps noon 20 "eva" cheaper listed_bicycle cheaper_bicycle listed_shop
      (record listed_shop { ads = cheaper_bicycle ∷ [] }) found-Ends edited-Ends

abbrev reader : EditingEnv
reader = record {
  tracking = record {
    now = noon;
    random = halves;
    fetch_bazos_public_status = λ ad. none;
    by_updated_at = λ ads. ads;
  };
  updated_at = λ ad. none;
}

abbrev of_eva : AdQuery
of_eva = record { is_active = none; identity_id = some 1; product_id = none }

find_many_ads-any_user_example :
    find_many_ads reader "eva" of_eva listed_shop ≡ find_many_ads reader "adam" of_eva listed_shop
find_many_ads-any_user_example =
    find_many_ads-any_user reader "eva" "adam" of_eva 1 listed_shop refl
