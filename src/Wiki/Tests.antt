-- ===== src/Wiki/Tests.antt =====
-- The theorems on the wiki at inputs of their own.
use fusion_on_prem_server.Base.{
  [], ◌≡◌, refl, true, false, none, some, List, ◌∷◌, map_option, arith,
}
use fusion_on_prem_server.Base.Sort.{insert_by, sort_by}
use fusion_on_prem_server.Base.Decimal.Order.{text_ltb}
use fusion_on_prem_server.Wiki.Slug.{to_lower_case, dash_runs, slugify}
use fusion_on_prem_server.Wiki.Slug.Shape.{IsSlug, slugify-IsSlug}
use fusion_on_prem_server.Wiki.Slug.Same.{slugify_same}
use fusion_on_prem_server.Wiki.Drafts.{
  WikiDraft, get_draft, put_draft, list_drafts, reload, save, create, draft,
}
use fusion_on_prem_server.Wiki.Session.{
  PublishedPage, WikiState, WikiEvent, new_clicked, typed_md, typed_title, timer_fired,
  publish_clicked, is_linked,
}
use fusion_on_prem_server.Wiki.Editor.{
  edited, autosave, rendered, on_timer, publish, on_published, handle, run,
}
use fusion_on_prem_server.Wiki.Links.{IsWikiSound}
use fusion_on_prem_server.Wiki.Links.Run.{run-IsWikiSound}
use fusion_on_prem_server.Wiki.Links.Lost.{on_timer-on_published}

slugify_test : slugify "  Bill of Materials (v2) " ≡ "bill-of-materials-v2"
unfolding slugify to_lower_case dash_runs
slugify_test = refl

slugify-empty_test : slugify "***" ≡ "untitled"
unfolding slugify to_lower_case dash_runs
slugify-empty_test = refl

slugify-IsSlug_example : IsSlug (slugify "Bill of Materials")
slugify-IsSlug_example = slugify-IsSlug "Bill of Materials"

slugify_same_example : slugify "rev-2" ≡ "rev-2"
slugify_same_example = slugify_same "rev-2" (refl, omega arith, refl) refl

abbrev fresh : WikiState
fresh = record {
  local = record { stored = []; drafts = []; loading = false };
  selected_id = none;
  editing_key = none;
  working_md = "";
  working_title = "";
  saved = true;
  timer = none;
  uploads = [];
  renames = [];
}

abbrev page : PublishedPage
page = record { item_id = "i"; tip_version = some "v1" }

-- A page is made, given a title and published, and a text is typed before the server answers.
abbrev events : List WikiEvent
events = new_clicked "k" 1 ∷ typed_title "A" ∷ timer_fired 2 ∷ publish_clicked ∷ typed_md "b" ∷ []

run-IsWikiSound_example : IsWikiSound (run text_ltb "p" true "New" events fresh)
run-IsWikiSound_example =
    run-IsWikiSound text_ltb "p" true "New" events fresh (tt, (tt, (tt, (tt, (tt, tt)))))
      ((tt, tt), tt, tt, tt)

abbrev made : WikiDraft
made = record {
  key = "p::k";
  project_id = "p";
  page_key = "k";
  title = "A";
  slug = "a";
  markdown = "# New\n\n";
  base_item_id = none;
  base_version = none;
  status = draft;
  updated_at = 2;
}

abbrev typed : WikiDraft
typed = record made { markdown = "b" }

-- The state after the events.
abbrev uploading : WikiState
uploading = record {
  local = record { stored = made ∷ []; drafts = made ∷ []; loading = false };
  selected_id = some "p::k";
  editing_key = some "p::k";
  working_md = "b";
  working_title = "A";
  saved = false;
  timer = some typed;
  uploads = record { base = made; title = "A"; slug = "a"; markdown = "# New\n\n" } ∷ [];
  renames = [];
}

uploading_test : run text_ltb "p" true "New" events fresh ≡ uploading
unfolding run handle rendered autosave edited on_timer publish create save reload put_draft
    list_drafts insert_by sort_by slugify to_lower_case dash_runs
uploading_test = refl

abbrev answered : WikiState
answered = on_published text_ltb "p" true "New" 0 page 5 uploading

on_timer-on_published_example :
    (map_option is_linked (get_draft "p::k" answered.local.stored) ≡ some true)
    × (map_option is_linked
          (get_draft "p::k" (on_timer text_ltb "p" true "New" 6 answered).local.stored)
        ≡ some false)
on_timer-on_published_example =
    on_timer-on_published text_ltb "p" true "New" uploading 0
      (record { base = made; title = "A"; slug = "a"; markdown = "# New\n\n" }) page typed 5 6 refl
      refl refl refl refl
