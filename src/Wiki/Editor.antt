-- ===== src/Wiki/Editor.antt =====
-- The editor of a project's wiki: the handlers of web/src/wiki/WikiApp.tsx that make, edit, publish,
-- rename and delete drafts, while one project is open. The timer of the autosave, and a request that the
-- server has not answered, keep the draft that they began with.
use fusion_on_prem_server.Wiki.Session.{
  PublishJob, RenameJob, WikiState, PublishedPage, WikiEvent, is_linked, find_draft, text_eq?,
  open_clicked, typed_md, typed_title, timer_fired, close_clicked, new_clicked, delete_clicked,
  edit_as_draft_clicked, publish_clicked, publish_answered, publish_failed, rename_confirmed,
  rename_answered, rename_failed,
}
use fusion_on_prem_server.Base.{
  [], remove_at, map_option, ℕ, String, Bool, true, false, not, ◌&&◌, ◌||◌, Option, none, some,
  List, ◌∷◌, ◌++◌, get_elem?, or_else, str_eq, if◌then◌else◌,
}
use fusion_on_prem_server.Base.Text.{is_empty_text, trim}
use fusion_on_prem_server.Wiki.Slug.{slugify}
use fusion_on_prem_server.Wiki.Drafts.{
  draft, published, modified, WikiDraft, DraftsState, save, remove, create, import_page,
}

module _ (key_before : String → String → Bool) (project_id : String) (can_write : Bool)
    (untitled_page : String) where
  -- The draft with the working copy in it.
  unfoldable pub edited : WikiDraft → String → String → WikiDraft
  edited base title md = record base {
    title = if is_empty_text title then untitled_page else title;
    slug =
        if is_linked base
        then base.slug
        else slugify (if is_empty_text title then "untitled" else title);
    markdown = md;
    status = if is_linked base then modified else draft;
  }

  abbrev pub is_edited : WikiDraft → WikiState → Bool
  is_edited base w =
      not (str_eq base.markdown w.working_md) || not (str_eq base.title w.working_title)

  abbrev pub autosave_of : Option WikiDraft → WikiState → WikiState
  autosave_of none w = record w { timer = none }
  autosave_of (some base) w =
      if is_edited base w
      then record w { saved = false; timer = some (edited base w.working_title w.working_md) }
      else record w { saved = true; timer = none }

  -- The effect of the autosave: it drops the timer that runs, and starts another if there is an edit.
  unfoldable pub autosave : WikiState → WikiState
  autosave w = autosave_of (find_draft w.editing_key w.local.drafts) w

  -- The effect runs after a handler that changed what it depends on.
  unfoldable pub rendered : WikiState → WikiState → WikiState
  rendered before w =
      if str_eq before.working_md w.working_md
        && str_eq before.working_title w.working_title
        && text_eq? before.editing_key w.editing_key
      then w
      else autosave w

  abbrev pub begin_edit : WikiDraft → WikiState → WikiState
  begin_edit d w = record w {
    editing_key = some d.key;
    selected_id = some d.key;
    working_md = d.markdown;
    working_title = d.title;
    saved = true;
  }

  abbrev pub save_draft : WikiDraft → WikiState → WikiState
  save_draft d w = record w { local = save key_before project_id d w.local }

  abbrev pub fire : ℕ → Option WikiDraft → WikiState → WikiState
  fire now none w = w
  fire now (some d) w = record (save_draft (record d { updated_at = now }) w) {
    timer = none;
    saved = true;
  }

  unfoldable pub on_timer : ℕ → WikiState → WikiState
  on_timer now w = fire now w.timer w

  abbrev pub flush : ℕ → Option WikiDraft → WikiState → WikiState
  flush now none w = w
  flush now (some base) w =
      if is_edited base w
      then save_draft (record (edited base w.working_title w.working_md) { updated_at = now }) w
      else w

  unfoldable pub close_editor : ℕ → WikiState → WikiState
  close_editor now w = record (flush now (find_draft w.editing_key w.local.drafts) w) {
    editing_key = none;
  }

  -- What `create` or `importPage` made is opened; where they throw, nothing changes.
  abbrev pub begin_made : Option (WikiDraft × DraftsState) → WikiState → WikiState
  begin_made none w = w
  begin_made (some (d, local)) w = begin_edit d (record w { local = local })

  abbrev pub unless_key : String → Option String → Option String
  unless_key key o = if text_eq? o (some key) then none else o

  unfoldable pub handle_delete : String → WikiState → WikiState
  handle_delete key w = record w {
    local = remove key_before project_id key w.local;
    selected_id = unless_key key w.selected_id;
    editing_key = unless_key key w.editing_key;
  }

  abbrev pub publish_title : WikiDraft → WikiState → String
  publish_title d w =
      if is_empty_text w.working_title
      then if is_empty_text d.title then untitled_page else d.title
      else w.working_title

  abbrev pub publish_slug : WikiDraft → String → String
  publish_slug d title =
      if is_linked d then d.slug else slugify (if is_empty_text title then "untitled" else title)

  abbrev pub upload_of : Option WikiDraft → WikiState → WikiState
  upload_of none w = w
  upload_of (some d) w =
      let title = publish_title d w in
      let upload : PublishJob = record {
        base = d;
        title = title;
        slug = publish_slug d title;
        markdown = w.working_md;
      } in
      if can_write then record w { uploads = w.uploads ++ upload ∷ [] } else w

  -- handlePublish, up to the answer. One that the user repeats after a 409 sends the same upload again.
  unfoldable pub publish : WikiState → WikiState
  publish w = upload_of (find_draft w.editing_key w.local.drafts) w

  abbrev pub linked_to : PublishJob → PublishedPage → ℕ → WikiDraft
  linked_to u page now = record u.base {
    title = u.title;
    slug = u.slug;
    markdown = u.markdown;
    base_item_id = some page.item_id;
    base_version = page.tip_version;
    status = published;
    updated_at = now;
  }

  abbrev pub link_of : ℕ → Option PublishJob → PublishedPage → ℕ → WikiState → WikiState
  link_of i none page now w = w
  link_of i (some u) page now w = record (save_draft (linked_to u page now) w) {
    saved = true;
    uploads = remove_at i w.uploads;
  }

  -- handlePublish, from the answer on.
  unfoldable pub on_published : ℕ → PublishedPage → ℕ → WikiState → WikiState
  on_published i page now w = link_of i (get_elem? w.uploads i) page now w

  abbrev pub rename_draft : RenameJob → Option WikiDraft → ℕ → WikiState → WikiState
  rename_draft r none now w = w
  rename_draft r (some d) now w =
      record (save_draft (record d { title = r.title; slug = r.slug; updated_at = now }) w) {
        working_title = if r.open_then then r.title else w.working_title;
      }

  abbrev pub rename_job : Option WikiDraft → String → WikiState → RenameJob
  rename_job d new_title w = record {
    renamed = d;
    title = new_title;
    slug = slugify new_title;
    open_then =
        not (is_empty_text (or_else w.editing_key ""))
        && text_eq? w.editing_key (map_option (λ (e : WikiDraft). e.key) d);
  }

  -- `!!publishedItemId`
  abbrev pub is_published : Option WikiDraft → Option String → Bool
  is_published none item_id = not (is_empty_text (or_else item_id ""))
  is_published (some d) item_id = not (is_empty_text (or_else d.base_item_id (or_else item_id "")))

  abbrev pub send_rename : Bool → RenameJob → ℕ → WikiState → WikiState
  send_rename true r now w = record w { renames = w.renames ++ r ∷ [] }
  send_rename false r now w = rename_draft r r.renamed now w

  -- doRename, for the entry with this draft and this page: up to the request, or to the end without one.
  unfoldable pub do_rename : Option String → Option String → String → ℕ → WikiState → WikiState
  do_rename entry_key item_id value now w =
      let d = find_draft entry_key w.local.drafts in
      if is_empty_text (trim value)
      then w
      else send_rename (is_published d item_id && can_write) (rename_job d (trim value) w) now w

  abbrev pub renamed_of : ℕ → Option RenameJob → ℕ → WikiState → WikiState
  renamed_of i none now w = w
  renamed_of i (some r) now w = record (rename_draft r r.renamed now w) {
    renames = remove_at i w.renames;
  }

  -- doRename, from the answer on.
  unfoldable pub on_renamed : ℕ → ℕ → WikiState → WikiState
  on_renamed i now w = renamed_of i (get_elem? w.renames i) now w

  unfoldable pub handle : WikiEvent → WikiState → WikiState
  handle (open_clicked d) w = begin_edit d w
  handle (typed_md md) w = record w { working_md = md }
  handle (typed_title title) w = record w { working_title = title }
  handle (timer_fired now) w = on_timer now w
  handle (close_clicked now) w = close_editor now w
  handle (new_clicked page_key now) w =
      begin_made (create key_before project_id untitled_page page_key now w.local) w
  handle (delete_clicked key) w = handle_delete key w
  handle (edit_as_draft_clicked args now) w =
      begin_made (import_page key_before project_id args now w.local) w
  handle publish_clicked w = publish w
  handle (publish_answered i page now) w = on_published i page now w
  handle (publish_failed i) w = record w { uploads = remove_at i w.uploads }
  handle (rename_confirmed entry_key item_id value now) w = do_rename entry_key item_id value now w
  handle (rename_answered i now) w = on_renamed i now w
  handle (rename_failed i) w = record w { renames = remove_at i w.renames }

  unfoldable pub run : List WikiEvent → WikiState → WikiState
  run [] w = w
  run (e ∷ es) w = run es (rendered w (handle e w))
