-- ===== src/Refs/RoundTrip.antt =====
-- What is read back from a token.
use fusion_on_prem_server.Base.{String, ◌≡◌, refl, ap, false, Option, some, map_option}
use fusion_on_prem_server.Base.Text.{is_empty_text, or_text}
use fusion_on_prem_server.Refs.Split.{
  CardRef, doc, task, job, batch, whiteboard, img, or_try, parse_card, encode_card,
}
use fusion_on_prem_server.Refs.Scheme.{
  FormCodec, DocRef, TaskRef, JobRef, BatchRef, WhiteboardRef, ChannelRef, ImgRef, MentionRef,
  doc_params, task_params, job_params, batch_params, whiteboard_params, channel_params, img_params,
  mention_params, encode_doc_ref, parse_doc_ref, encode_task_ref, parse_task_ref, encode_job_ref,
  parse_job_ref, encode_batch_ref, parse_batch_ref, encode_whiteboard_ref, parse_whiteboard_ref,
  encode_channel_ref, parse_channel_ref, encode_img_ref, parse_img_ref, encode_mention,
  parse_mention,
}

abbrev pub IsGiven : String → Type 0
IsGiven s = is_empty_text s ≡ false

-- The reference names what it stands for: the ids that its token cannot do without are there, and no
-- name is left to its default.
abbrev pub IsDocNamed : DocRef → Type 0
IsDocNamed ref = IsGiven ref.hub_id × IsGiven ref.item_id × IsGiven ref.name × IsGiven ref.kind

abbrev pub IsTaskNamed : TaskRef → Type 0
IsTaskNamed ref = IsGiven ref.project_id × IsGiven ref.task_id × IsGiven ref.title

abbrev pub IsJobNamed : JobRef → Type 0
IsJobNamed ref =
    IsGiven ref.project_id × IsGiven ref.project_name × IsGiven ref.job_id × IsGiven ref.job_name

abbrev pub IsBatchNamed : BatchRef → Type 0
IsBatchNamed ref = IsJobNamed ref.job × IsGiven ref.batch_id × IsGiven ref.batch_name

abbrev pub IsWhiteboardNamed : WhiteboardRef → Type 0
IsWhiteboardNamed ref = IsGiven ref.project_id × IsGiven ref.board_id × IsGiven ref.name

abbrev pub IsChannelNamed : ChannelRef → Type 0
IsChannelNamed ref = IsGiven ref.project_id × IsGiven ref.channel_id × IsGiven ref.name

abbrev pub IsImgNamed : ImgRef → Type 0
IsImgNamed ref = IsGiven ref.dm_project_id × IsGiven ref.item_id × IsGiven ref.name

abbrev pub IsCardNamed : CardRef → Type 0
IsCardNamed (doc ref) = IsDocNamed ref
IsCardNamed (task ref) = IsTaskNamed ref
IsCardNamed (job ref) = IsJobNamed ref
IsCardNamed (batch ref) = IsBatchNamed ref
IsCardNamed (whiteboard ref) = IsWhiteboardNamed ref
IsCardNamed (img ref) = IsImgNamed ref

module _ (form : FormCodec) where
  open form use {parse-print}

  parse_doc_ref-encode_doc_ref :
      (ref : DocRef) → IsDocNamed ref → parse_doc_ref form (encode_doc_ref form ref) ≡ some ref
  unfolding parse_doc_ref
  parse_doc_ref-encode_doc_ref ref (hub, item, name, kind) =
      rw (parse-print (doc_params ref) (refl, (refl, (refl, (refl, tt)))), hub, item, name, kind)

  parse_task_ref-encode_task_ref :
      (ref : TaskRef) → IsTaskNamed ref → parse_task_ref form (encode_task_ref form ref) ≡ some ref
  unfolding parse_task_ref
  parse_task_ref-encode_task_ref ref (project, id, title) =
      rw (parse-print (task_params ref) (refl, (refl, (refl, (refl, tt)))), project, id, title)

  parse_job_ref-encode_job_ref :
      (ref : JobRef) → IsJobNamed ref → parse_job_ref form (encode_job_ref form ref) ≡ some ref
  unfolding parse_job_ref
  parse_job_ref-encode_job_ref ref (project, project_name, id, name) = rw (
    parse-print (job_params ref) (refl, (refl, (refl, (refl, (refl, tt))))),
    project,
    project_name,
    id,
    name,
  )

  parse_batch_ref-encode_batch_ref :
      (ref : BatchRef)
      → IsBatchNamed ref
      → parse_batch_ref form (encode_batch_ref form ref) ≡ some ref
  unfolding parse_batch_ref
  parse_batch_ref-encode_batch_ref ref ((project, project_name, job_id, job_name), id, name) = rw (
    parse-print (batch_params ref) (refl, (refl, (refl, (refl, (refl, (refl, (refl, tt))))))),
    project,
    project_name,
    job_id,
    job_name,
    id,
    name,
  )

  parse_whiteboard_ref-encode_whiteboard_ref :
      (ref : WhiteboardRef)
      → IsWhiteboardNamed ref
      → parse_whiteboard_ref form (encode_whiteboard_ref form ref) ≡ some ref
  unfolding parse_whiteboard_ref
  parse_whiteboard_ref-encode_whiteboard_ref ref (project, id, name) = rw (
    parse-print (whiteboard_params ref) (refl, (refl, (refl, (refl, (refl, tt))))),
    project,
    id,
    name,
  )

  parse_img_ref-encode_img_ref :
      (ref : ImgRef) → IsImgNamed ref → parse_img_ref form (encode_img_ref form ref) ≡ some ref
  unfolding parse_img_ref
  parse_img_ref-encode_img_ref ref (project, item, name) =
      rw (parse-print (img_params ref) (refl, (refl, (refl, tt))), project, item, name)

  -- A channel's token, which pins carry, is read back as the channel that it was made for.
  pub parse_channel_ref-encode_channel_ref :
      (ref : ChannelRef)
      → IsChannelNamed ref
      → parse_channel_ref form (encode_channel_ref form ref) ≡ some ref
  unfolding parse_channel_ref
  parse_channel_ref-encode_channel_ref ref (project, id, name) = rw (
    parse-print (channel_params ref) (refl, (refl, (refl, (refl, (refl, tt))))),
    project,
    id,
    name,
  )

  or_empty : (s : String) → or_text (some s) "" ≡ s
  or_empty String.[] = refl
  or_empty (String.◌∷◌ c s) = refl

  -- A mention is read back as it was inserted, its name empty or not.
  pub parse_mention-encode_mention :
      (m : MentionRef) → IsGiven m.user_id → parse_mention form (encode_mention form m) ≡ some m
  unfolding parse_mention
  parse_mention-encode_mention m id =
      rw (parse-print (mention_params m) (refl, (refl, tt)), id)
        (ap (λ name. some (record { user_id = m.user_id; name = name })) (or_empty m.name))

  read_first :
      {R : Type 0} (card : R → CardRef) {r : R} {o : Option R} (later : Option CardRef)
      → o ≡ some r
      → or_try (map_option card o) later ≡ some (card r)
  read_first card later h = rw h

  -- A card's token is read as that card, by the one parser of the chain that takes it, where the
  -- card has its ids and names.
  pub parse_card-encode_card :
      (r : CardRef) → IsCardNamed r → parse_card form (encode_card form r) ≡ some r
  unfolding parse_card parse_doc_ref parse_task_ref parse_batch_ref parse_job_ref
      parse_whiteboard_ref
  parse_card-encode_card (doc ref) h = read_first doc _ (parse_doc_ref-encode_doc_ref ref h)
  parse_card-encode_card (task ref) h = read_first task _ (parse_task_ref-encode_task_ref ref h)
  parse_card-encode_card (batch ref) h = read_first batch _ (parse_batch_ref-encode_batch_ref ref h)
  parse_card-encode_card (job ref) h = read_first job _ (parse_job_ref-encode_job_ref ref h)
  parse_card-encode_card (whiteboard ref) h =
      read_first whiteboard _ (parse_whiteboard_ref-encode_whiteboard_ref ref h)
  parse_card-encode_card (img ref) h = ap (map_option img) (parse_img_ref-encode_img_ref ref h)
