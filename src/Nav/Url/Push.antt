-- ===== src/Nav/Url/Push.antt =====
-- web/src/state/navUrl.ts: which moves make an entry in the browser's history.
use fusion_on_prem_server.Base.{
  String, ◌≡◌, refl, sym, ap, ◌∙◌, true, false, Option, none, some, List, [], ◌∷◌, map, map_option,
  length, arith, eq_iff, ◌↔◌,
}
use fusion_on_prem_server.Nav.State.{
  Item, AppKind, browser, tasks, production, NavState, project_id,
}
use fusion_on_prem_server.Nav.Url.{eq_ids, eq_app, folder_moved, should_push}

abbrev item_id : Item → String
item_id i = i.id

-- Both states show the same screen, hub, project, chain of folders and document.
pub record IsSamePlace (s t : NavState) : Type 0 where
  pub app : s.app ≡ t.app
  pub hub : s.hub_id ≡ t.hub_id
  pub project : project_id s ≡ project_id t
  pub folders : map item_id s.folder_stack ≡ map item_id t.folder_stack
  pub selected : map_option item_id s.selected ≡ map_option item_id t.selected

eq_ids_lem : (a b : Option String) → eq_ids a b ≡ true → a ≡ b
eq_ids_lem none none h = refl
eq_ids_lem none (some b) h = cc
eq_ids_lem (some a) none h = cc
eq_ids_lem (some a) (some b) h = ap {B = Option String} some ((eq_iff a b).0 h)

eq_ids_refl : (a : Option String) → eq_ids a a ≡ true
eq_ids_refl none = refl
eq_ids_refl (some a) = (eq_iff a a).1 refl

eq_app_lem : (a b : AppKind) → eq_app a b ≡ true → a ≡ b
eq_app_lem browser browser h = refl
eq_app_lem tasks tasks h = refl
eq_app_lem production production h = refl
eq_app_lem _ _ h = cc

eq_app_refl : (a : AppKind) → eq_app a a ≡ true
eq_app_refl browser = refl
eq_app_refl tasks = refl
eq_app_refl production = refl

eq_ids_same : (a b : Option String) → a ≡ b → eq_ids a b ≡ true
eq_ids_same a b h = ap (eq_ids a) (sym h) ∙ eq_ids_refl a

eq_app_same : (a b : AppKind) → a ≡ b → eq_app a b ≡ true
eq_app_same a b h = ap (eq_app a) (sym h) ∙ eq_app_refl a

folders_lem :
    (fs gs : List Item)
    → length fs ≡ length gs
    → folder_moved fs gs ≡ false
    → map item_id fs ≡ map item_id gs
folders_lem [] [] n h = refl
folders_lem [] (g ∷ gs) n h = absurd (omega arith)
folders_lem (f ∷ fs) [] n h = absurd (omega arith)
folders_lem (f ∷ fs) (g ∷ gs) n h = ground (arith, eq_iff f.id g.id, folders_lem fs gs)

folders_refl :
    (fs gs : List Item)
    → map item_id fs ≡ map item_id gs
    → (length fs ≡ length gs) × (folder_moved fs gs ≡ false)
folders_refl [] [] h = (refl, refl)
folders_refl [] (g ∷ gs) h = cc
folders_refl (f ∷ fs) [] h = cc
folders_refl (f ∷ fs) (g ∷ gs) h = ground (arith, eq_iff f.id g.id, folders_refl fs gs)

-- No entry is made exactly when the screen, the hub, the project, the folders and the document stay
-- the same: not for a tab, a board or a channel.
pub should_push_iff :
    (prev next : NavState) → (should_push prev next ≡ false) ↔ IsSamePlace prev next
unfolding should_push
should_push_iff prev next = (
  λ h. record {
    app = eq_app_lem prev.app next.app (ground arith);
    hub = eq_ids_lem prev.hub_id next.hub_id (ground arith);
    project = eq_ids_lem (project_id prev) (project_id next) (ground arith);
    folders = folders_lem prev.folder_stack next.folder_stack (ground arith) (ground arith);
    selected =
        eq_ids_lem (map_option item_id prev.selected) (map_option item_id next.selected)
          (ground arith);
  },
  λ h.
      let app = eq_app_same prev.app next.app h.app in
      let hub = eq_ids_same prev.hub_id next.hub_id h.hub in
      let project = eq_ids_same (project_id prev) (project_id next) h.project in
      let selected =
        eq_ids_same (map_option item_id prev.selected) (map_option item_id next.selected)
          h.selected in
      let folders = folders_refl prev.folder_stack next.folder_stack h.folders in ground arith,
)
