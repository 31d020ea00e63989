-- ===== src/Nav/State/Owner.antt =====
-- Boards and channels are numbered within their project: the selection of web/src/state/nav.tsx
-- never outlives the project that it was made in.
use fusion_on_prem_server.Base.{
  String, ◌≡◌, sym, ap, Bool, true, false, Option, none, some, List, [], ◌∷◌, arith, eq_iff,
  if◌then◌else◌, ◌⊎◌,
}
use fusion_on_prem_server.Nav.State.{
  NavState, Action, hydrate, patch_project, select_hub, navigate, open_project_app, select_board,
  select_channel, project_id, is_string, reducer,
}

-- The actions that say which board and channel are selected; they speak of the project that is
-- open after them.
abbrev pub selects_board : Action → Bool
selects_board (hydrate s) = true
selects_board (open_project_app project tab sel) = true
selects_board (select_board id) = true
selects_board _ = false

abbrev pub selects_channel : Action → Bool
selects_channel (hydrate s) = true
selects_channel (open_project_app project tab sel) = true
selects_channel (select_channel id) = true
selects_channel _ = false

-- The state, with the project in which each selection was made.
pub record Owned : Type 0 where
  pub state : NavState
  pub board_owner : Option String
  pub channel_owner : Option String

unfoldable pub step : Owned → Action → Owned
step o a =
    let s = reducer o.state a in
    record {
      state = s;
      board_owner = if selects_board a then project_id s else o.board_owner;
      channel_owner = if selects_channel a then project_id s else o.channel_owner;
    }

unfoldable pub run : Owned → List Action → Owned
run o [] = o
run o (a ∷ actions) = run (step o a) actions

pub record IsOwned (o : Owned) : Type 0 where
  pub board : (o.state.board_id ≡ none) ⊎ (o.board_owner ≡ project_id o.state)
  pub channel : (o.state.channel_id ≡ none) ⊎ (o.channel_owner ≡ project_id o.state)

is_string-eq : (o : Option String) (s : String) → is_string o s ≡ true → some s ≡ o
is_string-eq none s h = cc
is_string-eq (some t) s h = ap {B = Option String} some (sym ((eq_iff t s).0 h))

step-IsOwned : (o : Owned) (a : Action) → IsOwned o → IsOwned (step o a)
unfolding step reducer
step-IsOwned o (patch_project project) h =
    ground (arith, is_string-eq (project_id o.state) project.id)
step-IsOwned o (navigate project stack selected tab) h =
    ground (arith, is_string-eq (project_id o.state) project.id)
step-IsOwned o (select_hub id name) h = ground arith
step-IsOwned o _ h = ground arith

-- Whatever the user does and wherever links lead, a selected board, and a selected channel, was
-- selected in the project that is open.
pub run-IsOwned : (o : Owned) (actions : List Action) → IsOwned o → IsOwned (run o actions)
unfolding run
run-IsOwned o [] h = h
run-IsOwned o (a ∷ actions) h = run-IsOwned (step o a) actions (step-IsOwned o a h)
