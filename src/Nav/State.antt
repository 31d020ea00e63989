-- ===== src/Nav/State.antt =====
-- web/src/state/nav.tsx: the navigation state and its reducer.
pub mod Owner
use fusion_on_prem_server.Base.{
  ℕ, ◌+◌, String, Bool, true, false, not, Option, none, some, List, [], ◌∷◌, ◌++◌, map_option, take,
  if◌then◌else◌, str_eq,
}

-- `Item` of web/src/api/types.ts.
pub record Item : Type 0 where
  pub id : String
  pub name : String
  pub kind : String
  pub alt_id : Option String
  pub web_url : Option String
  pub is_container : Bool
  pub component_version_id : Option String
  pub subtype : Option String
  pub modified_on : Option String
  pub slug : Option String

pub data AppKind : Type 0 where
  browser tasks production : AppKind

pub record NavState : Type 0 where
  pub app : AppKind
  pub hub_id : Option String
  pub hub_name : Option String
  pub project : Option Item
  pub folder_stack : List Item
  pub selected : Option Item
  pub selected_tab : Option String
  pub project_tab : Option String
  pub board_id : Option String
  pub channel_id : Option String

abbrev pub initial_state : NavState
initial_state = record {
  app = browser;
  hub_id = none;
  hub_name = none;
  project = none;
  folder_stack = [];
  selected = none;
  selected_tab = none;
  project_tab = none;
  board_id = none;
  channel_id = none;
}

-- `ProjectAppSelection`, absent fields and null alike as `none`.
pub record ProjectAppSelection : Type 0 where
  pub board_id : Option String
  pub channel_id : Option String

pub data Action : Type 0 where
  hydrate : NavState → Action
  patch_project : Item → Action
  set_app : AppKind → Action
  select_hub : String → String → Action
  select_project : Item → Action
  enter_folder : Item → Action
  select_item : Item → Action
  clear_project : Action
  goto_project_root : Action
  goto_folder : ℕ → Action
  navigate : Item → List Item → Option Item → Option String → Action
  open_project_app : Item → String → ProjectAppSelection → Action
  set_project_tab : String → Action
  select_board : Option String → Action
  select_channel : Option String → Action

-- `state.project?.id`
abbrev pub project_id : NavState → Option String
project_id s = map_option (λ (p : Item). p.id) s.project

-- `o === s` and `o === p`, for strings that may be absent.
abbrev pub is_string : Option String → String → Bool
is_string none s = false
is_string (some t) s = str_eq t s

-- Setting a field to the value that it has changes nothing, so the source's test for that only
-- keeps React from drawing again.
unfoldable pub reducer : NavState → Action → NavState
reducer state (hydrate s) = s
reducer state (patch_project project) =
    if is_string (project_id state) project.id
    then record state { project = some project }
    else state
reducer state (set_app app) = record state { app = app }
reducer state (select_hub id name) =
    if is_string state.hub_id id
    then state
    else record initial_state { app = state.app; hub_id = some id; hub_name = some name }
reducer state (select_project project) = record state {
  project = some project;
  folder_stack = [];
  selected = none;
  selected_tab = none;
  board_id = none;
  channel_id = none;
}
reducer state (enter_folder folder) = record state {
  folder_stack = state.folder_stack ++ folder ∷ [];
  selected = none;
  selected_tab = none;
}
reducer state (select_item item) = record state { selected = some item; selected_tab = none }
reducer state clear_project = record state {
  project = none;
  folder_stack = [];
  selected = none;
  selected_tab = none;
  board_id = none;
  channel_id = none;
}
reducer state goto_project_root = record state {
  folder_stack = [];
  selected = none;
  selected_tab = none;
}
reducer state (goto_folder index) = record state {
  folder_stack = take (index + 1) state.folder_stack;
  selected = none;
  selected_tab = none;
}
reducer state (navigate project folder_stack selected tab) =
    let crossed = not (is_string (project_id state) project.id) in
    record state {
      app = browser;
      project = some project;
      folder_stack = folder_stack;
      selected = selected;
      selected_tab = tab;
      board_id = if crossed then none else state.board_id;
      channel_id = if crossed then none else state.channel_id;
    }
reducer state (open_project_app project tab sel) = record state {
  app = browser;
  project = some project;
  folder_stack = [];
  selected = none;
  selected_tab = none;
  project_tab = some tab;
  board_id = sel.board_id;
  channel_id = sel.channel_id;
}
reducer state (set_project_tab tab) = record state { project_tab = some tab }
reducer state (select_board id) = record state { board_id = id }
reducer state (select_channel id) = record state { channel_id = id }
