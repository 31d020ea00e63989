-- ===== src/Board/Sync.antt =====
-- web/src/whiteboards/useBoardSync.ts: the client's state and every handler. The refs and the React
-- state of the hook are the fields of one record; a handler that waits for the server is two
-- functions, up to the request and from the answer. Times are milliseconds.
pub mod Inbound
pub mod CatchUp
pub mod Outbound
pub mod Confirmed
use fusion_on_prem_server.Base.{
  ℕ, zero, ◌+◌, ◌-◌, max, String, Bool, true, false, Option, none, some, List, [], ◌∷◌, ◌++◌, ◌&&◌,
  ◌||◌, not, leb, ltb, if◌then◌else◌, or_else, is_some, length, ◌==◌,
}
use fusion_on_prem_server.Base.Dict.{Dict}
use fusion_on_prem_server.Board.Protocol.{
  WirePatch, RecordsDiff, PatchFrame, FrameAction, skip, apply, resync, no_entries, is_empty_patch,
  diff_to_patch, squash, classify_frame, next_rev,
}
use fusion_on_prem_server.Board.Store.{TlStore}

abbrev pub patch_debounce_ms : ℕ
patch_debounce_ms = 100

abbrev pub patch_max_wait_ms : ℕ
patch_max_wait_ms = 400

pub data SyncStatus : Type 0 where
  connecting live offline error : SyncStatus

-- `timer` is the time at which it fires; `in_flight` is the queue that a request is sending.
pub record BoardSync (V : Type 0) (Store : Type 0) : Type 0 where
  pub store : Store
  pub status : SyncStatus
  pub pending : Bool
  pub client_id : String
  pub applied_rev : ℕ
  pub seq : ℕ
  pub queue : List (WirePatch V)
  pub timer : Option ℕ
  pub first_queued_at : ℕ
  pub in_flight : Option (List (WirePatch V))
  pub applying : Bool

-- The body of PATCH /api/whiteboards/patch.
pub record PatchRequest (V : Type 0) : Type 0 where
  pub client_id : String
  pub seq : ℕ
  pub base_rev : ℕ
  pub put : Dict V
  pub remove : List String

-- How `api.whiteboardPatch` settles, but for a `whiteboard_resync` error.
pub data Answer : Type 0 where
  accepted : ℕ → List String → Answer
  failed : Answer

-- What `onFrame` did: `gap` and `broken` both call `resync`.
pub data FrameResult : Type 0 where
  handled gap broken : FrameResult

module _ {V : Type 0} (tl : TlStore V) where
  open tl use {Store, put, remove, load, torn}

  abbrev pub State : Type 0
  State = BoardSync V Store

  -- The store is called only where there is something to write or to remove.
  unfoldable pub put_records : Dict V → Store → Option Store
  put_records records s = if no_entries records then some s else put s records

  abbrev pub remove_records : List String → Store → Store
  remove_records ids s = if no_entries ids then s else remove s ids

  abbrev pub patches_in_flight : State → List (WirePatch V)
  patches_in_flight s = or_else s.in_flight []

  -- `resync`, from the answer of `api.whiteboardDoc`: the document and its revision, if it came.
  unfoldable pub resync_done : Option (Dict V × ℕ) → State → State
  resync_done none s = record s { status = error }
  resync_done (some (doc, rev)) s = elim (load s.store doc) [
    | none ↦ record s { status = error; store = torn s.store doc }
    | some t ↦ record s { store = t; applied_rev = rev; queue = []; status = live }
  ]

  -- `send`, up to the request.
  unfoldable pub send : State → State × Option (PatchRequest V)
  send s =
      if is_some s.in_flight || no_entries s.queue
      then (record s { timer = none }, none)
      else if is_empty_patch (squash s.queue)
      then (record s { timer = none; queue = [] }, none)
      else (
        record s {
          timer = none;
          queue = [];
          in_flight = some s.queue;
          pending = true;
          seq = s.seq + 1;
        },
        some (record {
          client_id = s.client_id;
          seq = s.seq + 1;
          base_rev = s.applied_rev;
          put = (squash s.queue).put;
          remove = (squash s.queue).remove;
        }),
      )

  -- The `finally` of `send`.
  unfoldable pub finish : ℕ → State → State
  finish now s = record s {
    in_flight = none;
    pending = not (no_entries s.queue);
    timer =
        if not (no_entries s.queue) && not (is_some s.timer)
        then some (now + patch_debounce_ms)
        else s.timer;
  }

  -- `send`, from the answer.
  unfoldable pub answered : ℕ → Answer → State → State
  unfolding finish
  answered now (accepted rev rejected) s = finish now (record s {
    applied_rev = max s.applied_rev rev;
    status = live;
    store = remove_records rejected s.store;
  })
  answered now failed s =
      finish now (record s { queue = patches_in_flight s ++ s.queue; status = offline })

  -- `send`, where the server asked for a resync: from the answer of `api.whiteboardDoc`.
  unfoldable pub answered_resync : ℕ → Option (Dict V × ℕ) → State → State
  unfolding finish resync_done
  answered_resync now doc s = finish now (resync_done doc s)

  unfoldable pub enqueue : ℕ → WirePatch V → State → State
  enqueue now patch s = record s {
    queue = s.queue ++ patch ∷ [];
    pending = true;
    first_queued_at = if no_entries s.queue then now else s.first_queued_at;
  }

  -- The debounce with its ceiling.
  unfoldable pub schedule : ℕ → State → State × Option (PatchRequest V)
  schedule now s =
      if leb patch_max_wait_ms (now - s.first_queued_at)
      then send (record s { timer = none })
      else (record s { timer = some (now + patch_debounce_ms) }, none)

  -- The listener of `store.listen`, on a document change that the user made.
  unfoldable pub listen : ℕ → RecordsDiff V → State → State × Option (PatchRequest V)
  listen now changes s =
      if s.applying || is_empty_patch (diff_to_patch changes)
      then (s, none)
      else schedule now (enqueue now (diff_to_patch changes) s)

  -- `store.mergeRemoteChanges` in `onFrame`.
  unfoldable pub merge_frame : PatchFrame V → Store → Option Store
  unfolding put_records
  merge_frame frame store = elim (put_records frame.put store) [
    | none ↦ none
    | some t ↦ some (remove_records frame.remove t)
  ]

  unfoldable pub advance : FrameAction → PatchFrame V → State → State
  advance action frame s = record s {
    applied_rev = next_rev action frame s.applied_rev;
    status = live;
  }

  unfoldable pub on_action : FrameAction → PatchFrame V → State → State × FrameResult
  on_action resync frame s = (s, gap)
  on_action skip frame s = (advance skip frame s, handled)
  on_action apply frame s = elim (merge_frame frame s.store) [
    | none ↦ (record s { store = torn s.store frame.put }, broken)
    | some t ↦ (advance apply frame (record s { store = t }), handled)
  ]

  unfoldable pub on_frame : PatchFrame V → State → State × FrameResult
  unfolding on_action advance
  on_frame frame s = on_action (classify_frame frame s.applied_rev s.client_id) frame s

  unfoldable pub set_live : Bool → State → State
  set_live true s = record s { status = live }
  set_live false s = record s { status = elim s.status [ error ↦ error | _ ↦ offline ] }

  -- Whether `onReplaced` re-reads the document.
  unfoldable pub on_replaced : ℕ → State → Bool
  on_replaced rev s = ltb s.applied_rev rev
