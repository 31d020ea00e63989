-- ===== src/Wiki/Drafts.antt =====
-- A project's drafts: web/src/wiki/draftStore.ts, and the hook over it in web/src/wiki/useDrafts.ts. A
-- call of IndexedDB is taken to succeed, and at once. A key is a text's, so the store lists its records
-- by `key_before`, which stands for the order of the texts.
use fusion_on_prem_server.Base.{
  [], ℕ, String, Bool, false, not, Option, none, some, List, filter, find, str_eq, if◌then◌else◌,
  leb,
}
use fusion_on_prem_server.Base.Sort.{insert_by, sort_by}
use fusion_on_prem_server.Base.Text.{append, is_empty_text, trim}
use fusion_on_prem_server.Wiki.Slug.{slugify}

pub data DraftStatus : Type 0 where
  draft published modified : DraftStatus

pub record WikiDraft : Type 0 where
  pub key : String
  pub project_id : String
  pub page_key : String
  pub title : String
  pub slug : String
  pub markdown : String
  pub base_item_id : Option String
  pub base_version : Option String
  pub status : DraftStatus
  pub updated_at : ℕ

abbrev pub draft_key : String → String → String
draft_key project_id page_key = append project_id (append "::" page_key)

abbrev pub delete_draft : String → List WikiDraft → List WikiDraft
delete_draft key rows = filter (λ (d : WikiDraft). not (str_eq d.key key)) rows

-- The object store: its records, and the order that it lists them in.
module _ (key_before : String → String → Bool) where
  -- A record takes the place of the one that has its key.
  unfoldable pub put_draft : WikiDraft → List WikiDraft → List WikiDraft
  put_draft d rows =
      insert_by (λ (a b : WikiDraft). key_before a.key b.key) d (delete_draft d.key rows)

abbrev pub get_draft : String → List WikiDraft → Option WikiDraft
get_draft key rows = find (λ (d : WikiDraft). str_eq d.key key) rows

-- The rows of a project, the latest edit first.
unfoldable pub list_drafts : String → List WikiDraft → List WikiDraft
list_drafts project_id rows =
    sort_by (λ (a b : WikiDraft). leb b.updated_at a.updated_at)
      (filter (λ (d : WikiDraft). str_eq d.project_id project_id) rows)

-- The store, and what the hook shows of it.
pub record DraftsState : Type 0 where
  pub stored : List WikiDraft
  pub drafts : List WikiDraft
  pub loading : Bool

-- What the server tells of a page that is edited as a draft.
pub record ImportArgs : Type 0 where
  pub item_id : String
  pub tip_version : Option String
  pub title : String
  pub markdown : String

-- The record that `create` makes.
abbrev pub new_draft : String → String → String → ℕ → WikiDraft
new_draft project_id title page_key now =
    let trimmed = trim title in
    let name = if is_empty_text trimmed then "Untitled" else trimmed in
    record {
      key = draft_key project_id page_key;
      project_id = project_id;
      page_key = page_key;
      title = name;
      slug = slugify name;
      markdown = append "# " (append name "\n\n");
      base_item_id = none;
      base_version = none;
      status = draft;
      updated_at = now;
    }

-- The record that `importPage` makes.
abbrev pub imported_draft : String → ImportArgs → ℕ → WikiDraft
imported_draft project_id args now = record {
  key = draft_key project_id args.item_id;
  project_id = project_id;
  page_key = args.item_id;
  title = args.title;
  slug = slugify args.title;
  markdown = args.markdown;
  base_item_id = some args.item_id;
  base_version = args.tip_version;
  status = published;
  updated_at = now;
}

module _ (key_before : String → String → Bool) (project_id : String) where
  -- An empty id is no project.
  unfoldable pub reload : DraftsState → DraftsState
  reload s =
      if is_empty_text project_id
      then record s { drafts = []; loading = false }
      else record s { drafts = list_drafts project_id s.stored; loading = false }

  unfoldable pub save : WikiDraft → DraftsState → DraftsState
  save d s = reload (record s { stored = put_draft key_before d s.stored })

  unfoldable pub remove : String → DraftsState → DraftsState
  remove key s = reload (record s { stored = delete_draft key s.stored })

  -- Without a project, `create` and `importPage` throw.
  unfoldable pub create : String → String → ℕ → DraftsState → Option (WikiDraft × DraftsState)
  create title page_key now s =
      let d = new_draft project_id title page_key now in
      if is_empty_text project_id then none else some (d, save d s)

  unfoldable pub import_page : ImportArgs → ℕ → DraftsState → Option (WikiDraft × DraftsState)
  import_page args now s =
      let d = imported_draft project_id args now in
      if is_empty_text project_id then none else some (d, save d s)
