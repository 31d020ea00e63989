-- ===== src/Wiki/Links.antt =====
-- What every draft of web/src/wiki/WikiApp.tsx has, whatever the user does and the server answers.
pub mod Run
pub mod Lost
use fusion_on_prem_server.Base.{
  Holds, filter-All, find-Holds, remove_at-All, ℕ, String, ◌≡◌, refl, Bool, true, false, not,
  Option, none, some, List, All, All-append, Bool-cases, inl, inr,
}
use fusion_on_prem_server.Base.Sort.{insert_by-All, sort_by-All}
use fusion_on_prem_server.Base.Text.{is_empty_text}
use fusion_on_prem_server.Wiki.Drafts.{
  DraftStatus, draft, published, modified, WikiDraft, DraftsState, draft_key, put_draft,
  list_drafts, reload, save, remove,
}
use fusion_on_prem_server.Wiki.Session.{
  PublishJob, RenameJob, WikiState, WikiEvent, edit_as_draft_clicked, publish_answered, is_linked,
  find_draft, PublishedPage,
}
use fusion_on_prem_server.Wiki.Editor.{
  rename_draft, send_rename, renamed_of, autosave_of, fire, upload_of, link_of, linked_to, edited,
  is_edited, flush,
}

abbrev pub is_draft_status : DraftStatus → Bool
is_draft_status draft = true
is_draft_status published = false
is_draft_status modified = false

-- The draft has the key of its project and its page, and it is linked to a published page unless its
-- status says that it was never published.
abbrev pub IsSound : WikiDraft → Type 0
IsSound d =
    (d.key ≡ draft_key d.project_id d.page_key) × (is_linked d ≡ not (is_draft_status d.status))

abbrev pub AreSound : DraftsState → Type 0
AreSound s = All IsSound s.stored × All IsSound s.drafts

abbrev pub IsUploadSound : PublishJob → Type 0
IsUploadSound u = IsSound u.base

abbrev pub IsRenameSound : RenameJob → Type 0
IsRenameSound r = Holds IsSound r.renamed

-- So are the drafts that the store holds, those that are shown, and those that the timer, the uploads and
-- the renames began with.
abbrev pub IsWikiSound : WikiState → Type 0
IsWikiSound w =
    AreSound w.local
    × Holds IsSound w.timer
    × All IsUploadSound w.uploads
    × All IsRenameSound w.renames

-- The server names the pages that it tells of.
abbrev pub IsServed : WikiEvent → Type 0
IsServed (edit_as_draft_clicked args now) = is_empty_text args.item_id ≡ false
IsServed (publish_answered i page now) = is_empty_text page.item_id ≡ false
IsServed _ = Unit

pub find_draft-Holds :
    (key : Option String) (drafts : List WikiDraft)
    → All IsSound drafts
    → Holds IsSound (find_draft key drafts)
find_draft-Holds none drafts h = tt
find_draft-Holds (some key) drafts h = elim (Bool-cases (is_empty_text key)) [
  | inl e ↦ rw e tt
  | inr e ↦ rw e (find-Holds IsSound _ drafts h)
]

module _ (key_before : String → String → Bool) (project_id : String) where
  reload-AreSound :
      (s : DraftsState) → All IsSound s.stored → AreSound (reload key_before project_id s)
  unfolding reload list_drafts
  reload-AreSound s h = elim (Bool-cases (is_empty_text project_id)) [
    | inl e ↦ rw e (h, tt)
    | inr e ↦ rw e (h, sort_by-All _ IsSound _ (filter-All IsSound _ s.stored h))
  ]

  pub save-AreSound :
      (d : WikiDraft) (s : DraftsState)
      → IsSound d
      → AreSound s
      → AreSound (save key_before project_id d s)
  unfolding save put_draft
  save-AreSound d s hd (h, shown) =
      reload-AreSound _ (insert_by-All _ IsSound d _ hd (filter-All IsSound _ s.stored h))

  pub remove-AreSound :
      (key : String) (s : DraftsState) → AreSound s → AreSound (remove key_before project_id key s)
  unfolding remove
  remove-AreSound key s (h, shown) = reload-AreSound _ (filter-All IsSound _ s.stored h)

module _ (key_before : String → String → Bool) (project_id : String) (can_write : Bool)
    (untitled_page : String) where
  edited-IsSound :
      (base : WikiDraft) (title md : String)
      → IsSound base
      → IsSound (edited key_before project_id can_write untitled_page base title md)
  unfolding edited
  edited-IsSound base title md (key, link) = elim (Bool-cases (is_linked base)) [
    | inl e ↦ rw e (key, refl)
    | inr e ↦ rw e (key, refl)
  ]

  linked_to-IsSound :
      (u : PublishJob) (page : PublishedPage) (now : ℕ)
      → IsSound u.base
      → is_empty_text page.item_id ≡ false
      → IsSound (linked_to key_before project_id can_write untitled_page u page now)
  linked_to-IsSound u page now (key, link) given = (key, rw given refl)

  pub autosave_of-IsWikiSound :
      (o : Option WikiDraft) (w : WikiState)
      → Holds IsSound o
      → IsWikiSound w
      → IsWikiSound (autosave_of key_before project_id can_write untitled_page o w)
  autosave_of-IsWikiSound none w h (local, timer, uploads, renames) = (local, tt, uploads, renames)
  autosave_of-IsWikiSound (some base) w h (local, timer, uploads, renames) =
      elim (Bool-cases (is_edited key_before project_id can_write untitled_page base w)) [
        | inl e ↦ rw e (local, edited-IsSound base _ _ h, uploads, renames)
        | inr e ↦ rw e (local, tt, uploads, renames)
      ]

  pub fire-IsWikiSound :
      (now : ℕ) (o : Option WikiDraft) (w : WikiState)
      → Holds IsSound o
      → IsWikiSound w
      → IsWikiSound (fire key_before project_id can_write untitled_page now o w)
  fire-IsWikiSound now none w h sound = sound
  fire-IsWikiSound now (some d) w h (local, timer, uploads, renames) =
      (save-AreSound key_before project_id _ w.local h local, tt, uploads, renames)

  pub flush-IsWikiSound :
      (now : ℕ) (o : Option WikiDraft) (w : WikiState)
      → Holds IsSound o
      → IsWikiSound w
      → IsWikiSound (flush key_before project_id can_write untitled_page now o w)
  flush-IsWikiSound now none w h sound = sound
  flush-IsWikiSound now (some base) w h (local, timer, uploads, renames) =
      elim (Bool-cases (is_edited key_before project_id can_write untitled_page base w)) [
        | inl e ↦ rw e (
          save-AreSound key_before project_id _ w.local (edited-IsSound base _ _ h) local,
          timer,
          uploads,
          renames,
        )
        | inr e ↦ rw e (local, timer, uploads, renames)
      ]

  pub upload_of-IsWikiSound :
      (o : Option WikiDraft) (w : WikiState)
      → Holds IsSound o
      → IsWikiSound w
      → IsWikiSound (upload_of key_before project_id can_write untitled_page o w)
  upload_of-IsWikiSound none w h sound = sound
  upload_of-IsWikiSound (some d) w h (local, timer, uploads, renames) =
      elim (Bool-cases can_write) [
        | inl e ↦ rw e (local, timer, All-append IsUploadSound w.uploads _ uploads (h, tt), renames)
        | inr e ↦ rw e (local, timer, uploads, renames)
      ]

  pub link_of-IsWikiSound :
      (i : ℕ) (o : Option PublishJob) (page : PublishedPage) (now : ℕ) (w : WikiState)
      → Holds IsUploadSound o
      → is_empty_text page.item_id ≡ false
      → IsWikiSound w
      → IsWikiSound (link_of key_before project_id can_write untitled_page i o page now w)
  link_of-IsWikiSound i none page now w h given sound = sound
  link_of-IsWikiSound i (some u) page now w h given (local, timer, uploads, renames) = (
    save-AreSound key_before project_id _ w.local (linked_to-IsSound u page now h given) local,
    timer,
    remove_at-All IsUploadSound i w.uploads uploads,
    renames,
  )

  rename_draft-IsWikiSound :
      (r : RenameJob) (o : Option WikiDraft) (now : ℕ) (w : WikiState)
      → Holds IsSound o
      → IsWikiSound w
      → IsWikiSound (rename_draft key_before project_id can_write untitled_page r o now w)
  rename_draft-IsWikiSound r none now w h sound = sound
  rename_draft-IsWikiSound r (some d) now w h (local, timer, uploads, renames) =
      (save-AreSound key_before project_id _ w.local h local, timer, uploads, renames)

  pub send_rename-IsWikiSound :
      (sent : Bool) (r : RenameJob) (now : ℕ) (w : WikiState)
      → IsRenameSound r
      → IsWikiSound w
      → IsWikiSound (send_rename key_before project_id can_write untitled_page sent r now w)
  send_rename-IsWikiSound true r now w h (local, timer, uploads, renames) =
      (local, timer, uploads, All-append IsRenameSound w.renames _ renames (h, tt))
  send_rename-IsWikiSound false r now w h sound = rename_draft-IsWikiSound r r.renamed now w h sound

  pub renamed_of-IsWikiSound :
      (i : ℕ) (o : Option RenameJob) (now : ℕ) (w : WikiState)
      → Holds IsRenameSound o
      → IsWikiSound w
      → IsWikiSound (renamed_of key_before project_id can_write untitled_page i o now w)
  renamed_of-IsWikiSound i none now w h sound = sound
  renamed_of-IsWikiSound i (some r) now w h (local, timer, uploads, renames) =
      let (local', timer', uploads', renames') =
        rename_draft-IsWikiSound r r.renamed now w h (local, timer, uploads, renames) in
      (local', timer', uploads', remove_at-All IsRenameSound i w.renames renames)
