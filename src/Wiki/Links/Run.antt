-- ===== src/Wiki/Links/Run.antt =====
-- The drafts of web/src/wiki/WikiApp.tsx through any course of events.
use fusion_on_prem_server.Base.{
  [], Holds, get_elem?-Holds, remove_at-All, String, refl, Bool, ◌&&◌, none, some, List, ◌∷◌, All,
  str_eq, if◌then◌else◌, Bool-cases, inl, inr,
}
use fusion_on_prem_server.Base.Text.{is_empty_text, trim}
use fusion_on_prem_server.Wiki.Drafts.{
  WikiDraft, create, import_page, new_draft, imported_draft, save,
}
use fusion_on_prem_server.Wiki.Session.{
  WikiState, WikiEvent, open_clicked, typed_md, typed_title, timer_fired, close_clicked,
  new_clicked, delete_clicked, edit_as_draft_clicked, publish_clicked, publish_answered,
  publish_failed, rename_confirmed, rename_answered, rename_failed, text_eq?, find_draft,
}
use fusion_on_prem_server.Wiki.Editor.{
  do_rename, on_renamed, autosave, rendered, on_timer, begin_made, close_editor, handle_delete,
  publish, on_published, handle, run,
}
use fusion_on_prem_server.Wiki.Links.{
  IsSound, IsUploadSound, IsWikiSound, IsServed, find_draft-Holds, save-AreSound, remove-AreSound,
  autosave_of-IsWikiSound, fire-IsWikiSound, flush-IsWikiSound, upload_of-IsWikiSound,
  link_of-IsWikiSound, IsRenameSound, send_rename-IsWikiSound, renamed_of-IsWikiSound,
}

module _ (key_before : String → String → Bool) (project_id : String) (can_write : Bool)
    (untitled_page : String) where
  editing-Holds :
      (w : WikiState) → IsWikiSound w → Holds IsSound (find_draft w.editing_key w.local.drafts)
  editing-Holds w ((stored, shown), timer, uploads, renames) =
      find_draft-Holds w.editing_key w.local.drafts shown

  begin_made-IsWikiSound :
      (d : WikiDraft) (w : WikiState)
      → IsSound d
      → IsWikiSound w
      → IsWikiSound (
          begin_made key_before project_id can_write untitled_page
            (if is_empty_text project_id
              then none
              else some (d, save key_before project_id d w.local))
            w)
  begin_made-IsWikiSound d w hd (local, timer, uploads, renames) =
      elim (Bool-cases (is_empty_text project_id)) [
        | inl e ↦ rw e (local, timer, uploads, renames)
        | inr e ↦
            rw e (save-AreSound key_before project_id d w.local hd local, timer, uploads, renames)
      ]

  handle-IsWikiSound :
      (e : WikiEvent) (w : WikiState)
      → IsServed e
      → IsWikiSound w
      → IsWikiSound (handle key_before project_id can_write untitled_page e w)
  unfolding handle on_timer close_editor create import_page handle_delete publish on_published
      do_rename on_renamed
  handle-IsWikiSound (open_clicked d) w served sound = sound
  handle-IsWikiSound (typed_md md) w served sound = sound
  handle-IsWikiSound (typed_title title) w served sound = sound
  handle-IsWikiSound (timer_fired now) w served sound =
      fire-IsWikiSound key_before project_id can_write untitled_page now w.timer w sound.1 sound
  handle-IsWikiSound (close_clicked now) w served sound =
      flush-IsWikiSound key_before project_id can_write untitled_page now _ w
        (editing-Holds w sound) sound
  handle-IsWikiSound (new_clicked page_key now) w served sound =
      begin_made-IsWikiSound (new_draft project_id untitled_page page_key now) w (refl, refl) sound
  handle-IsWikiSound (delete_clicked key) w served (local, timer, uploads, renames) =
      (remove-AreSound key_before project_id key w.local local, timer, uploads, renames)
  handle-IsWikiSound (edit_as_draft_clicked args now) w served sound =
      begin_made-IsWikiSound (imported_draft project_id args now) w (refl, rw served refl) sound
  handle-IsWikiSound publish_clicked w served sound =
      upload_of-IsWikiSound key_before project_id can_write untitled_page _ w
        (editing-Holds w sound) sound
  handle-IsWikiSound (publish_answered i page now) w served (local, timer, uploads, renames) =
      link_of-IsWikiSound key_before project_id can_write untitled_page i _ page now w
        (get_elem?-Holds IsUploadSound w.uploads i uploads) served (local, timer, uploads, renames)
  handle-IsWikiSound (publish_failed i) w served (local, timer, uploads, renames) =
      (local, timer, remove_at-All IsUploadSound i w.uploads uploads, renames)
  handle-IsWikiSound (rename_confirmed entry_key item_id value now) w served sound =
      elim (Bool-cases (is_empty_text (trim value))) [
        | inl e ↦ rw e sound
        | inr e ↦ rw e (
            send_rename-IsWikiSound key_before project_id can_write untitled_page _ _ now w
              (find_draft-Holds entry_key w.local.drafts sound.0.1) sound)
      ]
  handle-IsWikiSound (rename_answered i now) w served sound =
      renamed_of-IsWikiSound key_before project_id can_write untitled_page i _ now w
        (get_elem?-Holds IsRenameSound w.renames i sound.3) sound
  handle-IsWikiSound (rename_failed i) w served (local, timer, uploads, renames) =
      (local, timer, uploads, remove_at-All IsRenameSound i w.renames renames)

  rendered-IsWikiSound :
      (before w : WikiState)
      → IsWikiSound w
      → IsWikiSound (rendered key_before project_id can_write untitled_page before w)
  unfolding rendered autosave
  rendered-IsWikiSound before w sound =
      elim (Bool-cases (
        str_eq before.working_md w.working_md
        && str_eq before.working_title w.working_title
        && text_eq? before.editing_key w.editing_key)) [
          | inl e ↦ rw e sound
          | inr e ↦ rw e (
              autosave_of-IsWikiSound key_before project_id can_write untitled_page _ w
                (editing-Holds w sound) sound)
        ]

  -- Whatever the user does, whenever the timer fires and in whatever order the server answers,
  -- every draft that is stored or shown has the key of its project and page, and is linked to a
  -- published page unless its status says that it never was published, where this held at first of
  -- these and of the drafts that the timer and the open requests keep, and as long as the server
  -- names the pages that it answers with.
  pub run-IsWikiSound :
      (events : List WikiEvent) (w : WikiState)
      → All IsServed events
      → IsWikiSound w
      → IsWikiSound (run key_before project_id can_write untitled_page events w)
  unfolding run
  run-IsWikiSound [] w served sound = sound
  run-IsWikiSound (e ∷ events) w (here, later) sound =
      run-IsWikiSound events _ later (rendered-IsWikiSound w _ (handle-IsWikiSound e w here sound))
