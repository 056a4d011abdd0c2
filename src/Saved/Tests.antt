-- ===== src/Saved/Tests.antt =====
-- Saving one job.
use rolebrief.Common.{true, none, some, [], ◌∷◌, any, ◌≡◌, refl}
use rolebrief.Saved.{
  SavedTables, is_saved_as, created_item, upsert, save_job, unsave_job, get_saved_job_slugs,
}
use rolebrief.Common.Sort.{sort}
use rolebrief.Saved.Laws.{save_job_lem}

abbrev no_items : SavedTables
no_items = record {
  items = created_item 1 0 2 "dev" 9 ∷ [];
  jobs = record { id = 9; slug = "dev" } ∷ [];
  next_id = 1;
}

abbrev saved_items : SavedTables
saved_items = record no_items {
  items = created_item 5 1 1 "dev" 9 ∷ created_item 1 0 2 "dev" 9 ∷ [];
  next_id = 2;
}

saves : save_job 5 1 "dev" no_items ≡ some saved_items
unfolding save_job upsert
saves = refl

save_job_lem_example :
    (any (is_saved_as 1 "dev") saved_items.items ≡ true)
    × (save_job 8 1 "dev" saved_items ≡ some saved_items)
    × ((unsave_job 1 "dev" saved_items).items ≡ (unsave_job 1 "dev" no_items).items)
save_job_lem_example = save_job_lem 5 8 1 "dev" no_items saved_items saves

unknown_job_test : save_job 5 1 "ops" no_items ≡ none
unfolding save_job
unknown_job_test = refl

slugs_test : get_saved_job_slugs 1 saved_items ≡ "dev" ∷ []
unfolding get_saved_job_slugs sort
slugs_test = refl
