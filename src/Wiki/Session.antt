-- ===== src/Wiki/Session.antt =====
-- The state of the editor of web/src/wiki/WikiApp.tsx, and what can happen to it.
use fusion_on_prem_server.Base.{
  ℕ, String, Bool, true, false, not, Option, none, some, List, find, or_else, str_eq, if◌then◌else◌,
}
use fusion_on_prem_server.Base.Text.{is_empty_text}
use fusion_on_prem_server.Wiki.Drafts.{WikiDraft, DraftsState, ImportArgs}

-- An upload: `editingDraft`, and the text and names that were sent.
pub record PublishJob : Type 0 where
  pub base : WikiDraft
  pub title : String
  pub slug : String
  pub markdown : String

-- A rename: the draft of the renamed entry, its new names, and whether it was open.
pub record RenameJob : Type 0 where
  pub renamed : Option WikiDraft
  pub title : String
  pub slug : String
  pub open_then : Bool

pub record WikiState : Type 0 where
  pub local : DraftsState
  pub selected_id : Option String
  pub editing_key : Option String
  pub working_md : String
  pub working_title : String
  pub saved : Bool
  -- What the timer of the autosave is to save, but for the time.
  pub timer : Option WikiDraft
  pub uploads : List PublishJob
  pub renames : List RenameJob

-- `page` of the server's answer.
pub record PublishedPage : Type 0 where
  pub item_id : String
  pub tip_version : Option String

pub data WikiEvent : Type 0 where
  open_clicked : WikiDraft → WikiEvent
  typed_md : String → WikiEvent
  typed_title : String → WikiEvent
  timer_fired : (now : ℕ) → WikiEvent
  close_clicked : (now : ℕ) → WikiEvent
  new_clicked : (page_key : String) (now : ℕ) → WikiEvent
  delete_clicked : (key : String) → WikiEvent
  edit_as_draft_clicked : ImportArgs → (now : ℕ) → WikiEvent
  publish_clicked : WikiEvent
  publish_answered : (upload : ℕ) → PublishedPage → (now : ℕ) → WikiEvent
  publish_failed : (upload : ℕ) → WikiEvent
  rename_confirmed : (entry_key item_id : Option String) (value : String) (now : ℕ) → WikiEvent
  rename_answered : (rename : ℕ) → (now : ℕ) → WikiEvent
  rename_failed : (rename : ℕ) → WikiEvent

-- `!!d.baseItemId`
abbrev pub is_linked : WikiDraft → Bool
is_linked d = not (is_empty_text (or_else d.base_item_id ""))

abbrev pub find_draft : Option String → List WikiDraft → Option WikiDraft
find_draft none drafts = none
find_draft (some key) drafts =
    if is_empty_text key then none else find (λ (d : WikiDraft). str_eq d.key key) drafts

abbrev pub text_eq? : Option String → Option String → Bool
text_eq? none none = true
text_eq? (some a) (some b) = str_eq a b
text_eq? _ _ = false
