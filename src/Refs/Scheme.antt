-- ===== src/Refs/Scheme.antt =====
-- Each kind of token: web/src/components/doccard/docref.ts, taskcard/taskref.ts,
-- productioncard/prodref.ts, whiteboardcard/wbref.ts, chatcard/chanref.ts, imgcard/imgref.ts, and
-- web/src/notifications/mentions.ts.
use Prim.Native.Char.{Char, code}
use fusion_on_prem_server.Base.{
  String, ◌≡◌, Bool, false, ◌&&◌, ◌||◌, Option, none, some, [], ◌∷◌, if◌then◌else◌, leb, ◌==◌,
  or_else,
}
use fusion_on_prem_server.Base.Dict.{Dict, lookup, insert, HasUniqueKeys}
use fusion_on_prem_server.Base.Text.{append, strip_prefix, is_empty_text, or_text, AllChars}

-- The alphabet of application/x-www-form-urlencoded, as the tokens' regular expressions have it.
abbrev pub is_token_char : Char → Bool
is_token_char c =
    leb b'A' (code c) && leb (code c) b'Z'
    || leb b'a' (code c) && leb (code c) b'z'
    || leb b'0' (code c) && leb (code c) b'9'
    || code c == b'*'
    || code c == b'-'
    || code c == b'.'
    || code c == b'_'
    || code c == b'%'
    || code c == b'&'
    || code c == b'='
    || code c == b'+'

-- `URLSearchParams`, written to a text and read from one.
pub record FormCodec : Type 0 where
  pub print : Dict String → String
  pub parse : String → Dict String
  pub parse-print : (m : Dict String) → HasUniqueKeys m → parse (print m) ≡ m
  pub print-AllChars : (m : Dict String) → AllChars is_token_char (print m)
  pub print_given : (k v : String) (m : Dict String) → is_empty_text (print ((k, v) ∷ m)) ≡ false

-- sp.get(k) ?? ''
abbrev pub get : String → Dict String → String
get k sp = or_else (lookup k sp) ""

-- sp.get(k) || d
abbrev pub get_or : String → String → Dict String → String
get_or k d sp = or_text (lookup k sp) d

pub record DocRef : Type 0 where
  pub hub_id : String
  pub item_id : String
  pub name : String
  pub kind : String

pub record TaskRef : Type 0 where
  pub hub_id : String
  pub project_id : String
  pub task_id : String
  pub title : String

pub record JobRef : Type 0 where
  pub hub_id : String
  pub project_id : String
  pub project_name : String
  pub job_id : String
  pub job_name : String

pub record BatchRef : Type 0 where
  pub job : JobRef
  pub batch_id : String
  pub batch_name : String

pub record WhiteboardRef : Type 0 where
  pub hub_id : String
  pub project_id : String
  pub project_name : String
  pub board_id : String
  pub name : String

pub record ChannelRef : Type 0 where
  pub hub_id : String
  pub project_id : String
  pub project_name : String
  pub channel_id : String
  pub name : String

pub record ImgRef : Type 0 where
  pub dm_project_id : String
  pub item_id : String
  pub name : String

pub record MentionRef : Type 0 where
  pub user_id : String
  pub name : String

abbrev pub doc_ref_prefix : String
doc_ref_prefix = "fls:doc?"

abbrev pub task_ref_prefix : String
task_ref_prefix = "fls:task?"

abbrev pub job_ref_prefix : String
job_ref_prefix = "fls:job?"

abbrev pub batch_ref_prefix : String
batch_ref_prefix = "fls:batch?"

abbrev pub whiteboard_ref_prefix : String
whiteboard_ref_prefix = "fls:whiteboard?"

abbrev pub channel_ref_prefix : String
channel_ref_prefix = "fls:channel?"

abbrev pub img_ref_prefix : String
img_ref_prefix = "fls:img?"

abbrev pub mention_prefix : String
mention_prefix = "fls:user?"

-- What each `encode` sets, in order.
abbrev pub doc_params : DocRef → Dict String
doc_params ref =
    insert "kind" ref.kind
      (insert "name" ref.name (insert "itemId" ref.item_id (insert "hubId" ref.hub_id [])))

abbrev pub task_params : TaskRef → Dict String
task_params ref =
    insert "title" ref.title (
      insert "taskId" ref.task_id
        (insert "projectId" ref.project_id (insert "hubId" ref.hub_id [])))

abbrev pub job_params : JobRef → Dict String
job_params ref = insert "jobName" ref.job_name (
    insert "jobId" ref.job_id (
      insert "projectName" ref.project_name
        (insert "projectId" ref.project_id (insert "hubId" ref.hub_id []))))

abbrev pub batch_params : BatchRef → Dict String
batch_params ref =
    insert "batchName" ref.batch_name (insert "batchId" ref.batch_id (job_params ref.job))

abbrev pub whiteboard_params : WhiteboardRef → Dict String
whiteboard_params ref = insert "name" ref.name (
    insert "boardId" ref.board_id (
      insert "projectName" ref.project_name
        (insert "projectId" ref.project_id (insert "hubId" ref.hub_id []))))

abbrev pub channel_params : ChannelRef → Dict String
channel_params ref = insert "name" ref.name (
    insert "channelId" ref.channel_id (
      insert "projectName" ref.project_name
        (insert "projectId" ref.project_id (insert "hubId" ref.hub_id []))))

abbrev pub img_params : ImgRef → Dict String
img_params ref =
    insert "name" ref.name (insert "itemId" ref.item_id (insert "dmProjectId" ref.dm_project_id []))

abbrev pub mention_params : MentionRef → Dict String
mention_params m = insert "name" m.name (insert "id" m.user_id [])

-- What each `parse` reads.
abbrev pub doc_of : Dict String → Option DocRef
doc_of sp =
    if is_empty_text (get "hubId" sp) || is_empty_text (get "itemId" sp)
    then none
    else some (record {
      hub_id = get "hubId" sp;
      item_id = get "itemId" sp;
      name = get_or "name" "document" sp;
      kind = get_or "kind" "unknown" sp;
    })

abbrev pub task_of : Dict String → Option TaskRef
task_of sp =
    if is_empty_text (get "projectId" sp) || is_empty_text (get "taskId" sp)
    then none
    else some (record {
      hub_id = get "hubId" sp;
      project_id = get "projectId" sp;
      task_id = get "taskId" sp;
      title = get_or "title" "task" sp;
    })

abbrev pub job_fields : Dict String → JobRef
job_fields sp = record {
  hub_id = get "hubId" sp;
  project_id = get "projectId" sp;
  project_name = get_or "projectName" "project" sp;
  job_id = get "jobId" sp;
  job_name = get_or "jobName" "job" sp;
}

abbrev pub job_of : Dict String → Option JobRef
job_of sp =
    if is_empty_text (get "projectId" sp) || is_empty_text (get "jobId" sp)
    then none
    else some (job_fields sp)

abbrev pub batch_of : Dict String → Option BatchRef
batch_of sp =
    if is_empty_text (get "projectId" sp)
      || is_empty_text (get "jobId" sp)
      || is_empty_text (get "batchId" sp)
    then none
    else some (record {
      job = job_fields sp;
      batch_id = get "batchId" sp;
      batch_name = get_or "batchName" "batch" sp;
    })

abbrev pub whiteboard_of : Dict String → Option WhiteboardRef
whiteboard_of sp =
    if is_empty_text (get "projectId" sp) || is_empty_text (get "boardId" sp)
    then none
    else some (record {
      hub_id = get "hubId" sp;
      project_id = get "projectId" sp;
      project_name = get "projectName" sp;
      board_id = get "boardId" sp;
      name = get_or "name" "whiteboard" sp;
    })

abbrev pub channel_of : Dict String → Option ChannelRef
channel_of sp =
    if is_empty_text (get "projectId" sp) || is_empty_text (get "channelId" sp)
    then none
    else some (record {
      hub_id = get "hubId" sp;
      project_id = get "projectId" sp;
      project_name = get "projectName" sp;
      channel_id = get "channelId" sp;
      name = get_or "name" "channel" sp;
    })

abbrev pub img_of : Dict String → Option ImgRef
img_of sp =
    if is_empty_text (get "dmProjectId" sp) || is_empty_text (get "itemId" sp)
    then none
    else some (record {
      dm_project_id = get "dmProjectId" sp;
      item_id = get "itemId" sp;
      name = get_or "name" "image" sp;
    })

abbrev pub mention_of : Dict String → Option MentionRef
mention_of sp =
    if is_empty_text (get "id" sp)
    then none
    else some (record { user_id = get "id" sp; name = get_or "name" "" sp })

-- `!/^[[\]]$/`
abbrev pub is_bracket : Char → Bool
is_bracket c = code c == b'[' || code c == b']'

-- name.replace(/[[\]]/g, '')
unfoldable pub drop_brackets : String → String
drop_brackets String.[] = ""
drop_brackets (String.◌∷◌ c s) =
    let rest = drop_brackets s in if is_bracket c then rest else String.◌∷◌ c rest

abbrev pub link_to : String → String → String
link_to label token = append "[" (append (drop_brackets label) (append "](" (append token ")")))

module _ (form : FormCodec) where
  open form use {print, parse}

  -- url.startsWith(prefix), and the parameters that follow it.
  abbrev pub params_after : String → String → Option (Dict String)
  params_after prefix url = elim (strip_prefix prefix url) [ none ↦ none | some q ↦ some (parse q) ]

  abbrev pub read {ℓ} : {A : Type ℓ} → Option (Dict String) → (Dict String → Option A) → Option A
  read none f = none
  read (some sp) f = f sp

  abbrev pub encode_doc_ref : DocRef → String
  encode_doc_ref ref = append doc_ref_prefix (print (doc_params ref))

  unfoldable pub parse_doc_ref : String → Option DocRef
  parse_doc_ref url = read (params_after doc_ref_prefix url) doc_of

  abbrev pub doc_ref_markdown : DocRef → String
  doc_ref_markdown ref = link_to ref.name (encode_doc_ref ref)

  abbrev pub encode_task_ref : TaskRef → String
  encode_task_ref ref = append task_ref_prefix (print (task_params ref))

  unfoldable pub parse_task_ref : String → Option TaskRef
  parse_task_ref url = read (params_after task_ref_prefix url) task_of

  abbrev pub task_ref_markdown : TaskRef → String
  task_ref_markdown ref = link_to ref.title (encode_task_ref ref)

  abbrev pub encode_job_ref : JobRef → String
  encode_job_ref ref = append job_ref_prefix (print (job_params ref))

  unfoldable pub parse_job_ref : String → Option JobRef
  parse_job_ref url = read (params_after job_ref_prefix url) job_of

  abbrev pub job_ref_markdown : JobRef → String
  job_ref_markdown ref = link_to ref.job_name (encode_job_ref ref)

  abbrev pub encode_batch_ref : BatchRef → String
  encode_batch_ref ref = append batch_ref_prefix (print (batch_params ref))

  unfoldable pub parse_batch_ref : String → Option BatchRef
  parse_batch_ref url = read (params_after batch_ref_prefix url) batch_of

  abbrev pub batch_ref_markdown : BatchRef → String
  batch_ref_markdown ref = link_to ref.batch_name (encode_batch_ref ref)

  abbrev pub encode_whiteboard_ref : WhiteboardRef → String
  encode_whiteboard_ref ref = append whiteboard_ref_prefix (print (whiteboard_params ref))

  unfoldable pub parse_whiteboard_ref : String → Option WhiteboardRef
  parse_whiteboard_ref url = read (params_after whiteboard_ref_prefix url) whiteboard_of

  abbrev pub whiteboard_ref_markdown : WhiteboardRef → String
  whiteboard_ref_markdown ref = link_to ref.name (encode_whiteboard_ref ref)

  abbrev pub encode_channel_ref : ChannelRef → String
  encode_channel_ref ref = append channel_ref_prefix (print (channel_params ref))

  unfoldable pub parse_channel_ref : String → Option ChannelRef
  parse_channel_ref url = read (params_after channel_ref_prefix url) channel_of

  abbrev pub encode_img_ref : ImgRef → String
  encode_img_ref ref = append img_ref_prefix (print (img_params ref))

  unfoldable pub parse_img_ref : String → Option ImgRef
  parse_img_ref url = read (params_after img_ref_prefix url) img_of

  abbrev pub encode_mention : MentionRef → String
  encode_mention m = append mention_prefix (print (mention_params m))

  unfoldable pub parse_mention : String → Option MentionRef
  parse_mention token = read (params_after mention_prefix token) mention_of
