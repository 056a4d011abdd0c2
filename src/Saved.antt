-- ===== src/Saved.antt =====
-- `saveJob`, `unsaveJob` and `getSavedJobSlugs` of backend/src/modules/saved/saved.service.ts on the
-- table of the saved items (backend/prisma/schema.prisma).
use rolebrief.Common.{
  ℕ, suc, Bool, true, false, not, ◌&&◌, Option, none, some, List, [], ◌∷◌, map, String, str_eq,
  ◌==◌, keep, find, any, if◌then◌else◌,
}
use rolebrief.Common.Sort.{difference, sort}
pub mod Laws
mod Tests

pub record SavedItem : Type 0 where
  pub id : ℕ
  pub user_id : ℕ
  pub item_type : String
  pub item_id : String
  pub job_id : Option ℕ
  pub created_at : ℕ

-- What `select: { id: true, slug: true }` gives of a job.
pub record JobRef : Type 0 where
  pub id : ℕ
  pub slug : String

pub record SavedTables : Type 0 where
  pub items : List SavedItem
  pub jobs : List JobRef
  pub next_id : ℕ

-- `{ userId, itemType: "JOB", itemId: slug }`
abbrev pub is_saved_as : ℕ → String → SavedItem → Bool
is_saved_as user slug i = (i.user_id == user && str_eq i.item_type "JOB") && str_eq i.item_id slug

-- The update of `upsert`.
abbrev pub with_job : ℕ → ℕ → String → SavedItem → SavedItem
with_job job user slug i = if is_saved_as user slug i then record i { job_id = some job } else i

-- The row that `upsert` creates.
abbrev pub created_item : ℕ → ℕ → ℕ → String → ℕ → SavedItem
created_item now id user slug job = record {
  id = id;
  user_id = user;
  item_type = "JOB";
  item_id = slug;
  job_id = some job;
  created_at = now;
}

unfoldable pub upsert : ℕ → ℕ → String → ℕ → SavedTables → SavedTables
upsert now user slug job t =
    if any (is_saved_as user slug) t.items
    then record t { items = map (with_job job user slug) t.items }
    else record t {
      items = created_item now t.next_id user slug job ∷ t.items;
      next_id = suc t.next_id;
    }

-- `saveJob`: no answer where the source reports that there is no such job.
unfoldable pub save_job : ℕ → ℕ → String → SavedTables → Option SavedTables
save_job now user slug t = elim (find (λ (j : JobRef). str_eq j.slug slug) t.jobs) [
  | none ↦ none
  | some job ↦ some (upsert now user slug job.id t)
]

-- `unsaveJob`
unfoldable pub unsave_job : ℕ → String → SavedTables → SavedTables
unsave_job user slug t = record t { items = keep (λ i. not (is_saved_as user slug i)) t.items }

-- `getSavedJobSlugs`
unfoldable pub get_saved_job_slugs : ℕ → SavedTables → List String
get_saved_job_slugs user t =
    map (λ (i : SavedItem). i.item_id)
      (keep (λ (i : SavedItem). i.user_id == user && str_eq i.item_type "JOB")
        (sort (λ (a b : SavedItem). difference b.created_at a.created_at) t.items))
