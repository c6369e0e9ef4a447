-- ===== src/Swr/Tests.antt =====
-- The cache of sources at concrete data.
use glanceus.Prelude.{
  ◌≡◌, refl, String, str_eq, Bool, true, false, Option, none, some, List, [], ◌∷◌, if◌then◌else◌,
}
use glanceus.Prelude.Dict.{lookup}
use glanceus.Prelude.Int.{whole, units}
use glanceus.Prelude.Value.{Value, undefined, number, string}
use glanceus.Coordinator.State.{Summary, Detail, SourcesWithData, ltb_Num}
use glanceus.Swr.{
  fetcher, get_integration_file, sources_with_data_fetcher, optimistic_remove_source,
  optimistic_update_source_status,
}
use glanceus.Swr.Written.{source_of}
use glanceus.Swr.Fetched.{data_of, sources_with_data_fetcher_lem}
use glanceus.Swr.Updates.{status_of, sources_in, details_in, optimistic_update_lem}

abbrev is_later : Value → Value → Bool
is_later (number a) (number b) = ltb_Num b a
is_later _ _ = false

abbrev source : String → Value → Summary
source id updated_at = record {
  id = id;
  has_data = true;
  updated_at = updated_at;
  error = undefined;
  error_code = undefined;
  error_details = undefined;
  status = string "active";
  message = undefined;
  interaction = undefined;
  last_success_at = undefined;
  other_fields = [];
}

abbrev detail_at : Value → String → Detail
detail_at updated_at text = ("updated_at", updated_at) ∷ ("data", string text) ∷ []

abbrev answers : String → Option Detail
answers id = if str_eq id "gone" then none else some (detail_at (number (whole 9)) "new")

abbrev cached : List (String × Detail)
cached =
    ("mail", detail_at (number (whole 5)) "old") ∷ ("rss", detail_at (number (whole 5)) "old") ∷ []

abbrev listed : List Summary
listed =
    source "mail" (number (whole 5))
    ∷ source "rss" (number (whole 6))
    ∷ source "gone" undefined
    ∷ []

sources_with_data_fetcher_lem_example :
    (result : SourcesWithData) × (sources_with_data_fetcher is_later
        (λ id. some (answers id))
        (some cached)
        true
        (some listed)
      ≡ some result)
    × (result.sources ≡ listed)
    × ((id : String)
        → lookup id result.data_map
          ≡ data_of is_later answers (some cached) true id (source_of id listed))
sources_with_data_fetcher_lem_example =
    sources_with_data_fetcher_lem is_later answers (some cached) true listed
      (refl, (refl, (refl, tt))) (refl, (refl, tt))

-- The unchanged source keeps its data, the later one has the new, and the missing one none.
mail_kept :
    data_of is_later answers (some cached) true "mail" (source_of "mail" listed)
    ≡ some (detail_at (number (whole 5)) "old")
unfolding whole units
mail_kept = refl

rss_fetched :
    data_of is_later answers (some cached) true "rss" (source_of "rss" listed)
    ≡ some (detail_at (number (whole 9)) "new")
unfolding whole units
rss_fetched = refl

file_key : fetcher "integration-file-a.yaml" ≡ some (get_integration_file "a.yaml")
unfolding fetcher
file_key = refl

abbrev both : Option SourcesWithData
both = some (record { sources = listed; data_map = cached })

optimistic_update_lem_example :
    (sources_in (optimistic_remove_source "rss" both) "mail"
      ≡ (if str_eq "mail" "rss" then none else sources_in both "mail"))
    × (details_in (optimistic_remove_source "rss" both) "mail"
        ≡ (if str_eq "mail" "rss" then none else details_in both "mail"))
    × (sources_in (optimistic_update_source_status "rss" (string "refreshing") both) "mail" ≡ (
        if str_eq "mail" "rss"
        then status_of (string "refreshing") (sources_in both "mail")
        else sources_in both "mail"))
    × (details_in (optimistic_update_source_status "rss" (string "refreshing") both) "mail"
        ≡ details_in both "mail")
optimistic_update_lem_example = optimistic_update_lem "rss" "mail" (string "refreshing") both
