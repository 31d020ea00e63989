-- ===== src/Refs/Split.antt =====
-- Splitting a text at its tokens: `splitRefTokens` of web/src/components/reftokens.ts, `splitDocRefs` of
-- web/src/components/doccard/docref.ts and `splitMentions` of web/src/notifications/mentions.ts.
use Prim.Native.Char.{Char}
use fusion_on_prem_server.Base.{
  ℕ, zero, suc, ◌+◌, String, Option, none, some, List, [], ◌∷◌, map_option, if◌then◌else◌, ◌==◌,
}
use fusion_on_prem_server.Base.Text.{
  append, string_length, slice, is_empty_text, strip_prefix, span_length,
}
use fusion_on_prem_server.Refs.Scheme.{
  is_token_char, FormCodec, DocRef, TaskRef, JobRef, BatchRef, WhiteboardRef, ImgRef, MentionRef,
  doc_ref_prefix, task_ref_prefix, job_ref_prefix, batch_ref_prefix, whiteboard_ref_prefix,
  img_ref_prefix, mention_prefix, parse_doc_ref, parse_task_ref, parse_job_ref, parse_batch_ref,
  parse_whiteboard_ref, parse_img_ref, parse_mention, encode_doc_ref, encode_task_ref,
  encode_job_ref, encode_batch_ref, encode_whiteboard_ref, encode_img_ref,
}

-- How long a match of `prefix[A-Za-z0-9*\-._%&=+]+` at the start of the text is, or 0.
abbrev pub match_rest : ℕ → Option String → ℕ
match_rest n none = 0
match_rest n (some rest) =
    if span_length is_token_char rest == 0 then 0 else n + span_length is_token_char rest

abbrev pub match_prefix : String → String → ℕ
match_prefix prefix s = match_rest (string_length prefix) (strip_prefix prefix s)

-- Of the alternatives, the first that matches.
abbrev pub match_length : List String → String → ℕ
match_length [] s = 0
match_length (prefix ∷ prefixes) s =
    if match_prefix prefix s == 0 then match_length prefixes s else match_prefix prefix s

-- The text as `matchAll` walks it: a character outside every match, or a match.
pub data Piece : Type 0 where
  plain : Char → Piece
  token : String → Piece

-- `skip` characters of the last match are still to pass.
unfoldable pub match_all : List String → ℕ → String → List Piece
match_all prefixes skip String.[] = []
match_all prefixes (suc skip) (String.◌∷◌ c s) = match_all prefixes skip s
match_all prefixes zero (String.◌∷◌ c s) = elim (match_length prefixes (String.◌∷◌ c s)) [
  | zero ↦ plain c ∷ match_all prefixes 0 s
  | suc n ↦ token (slice (suc n) (String.◌∷◌ c s)) ∷ match_all prefixes n s
]

pub data Part (R : Type 0) : Type 0 where
  text : String → Part R
  ref : R → Part R

-- `if (m.index! > last) parts.push({ text: text.slice(last, m.index) })`
abbrev pub push_text : {R : Type 0} → String → List (Part R) → List (Part R)
push_text s parts = if is_empty_text s then parts else text s ∷ parts

-- The loop over the matches, with the text since the last part. A match that does not parse is text.
unfoldable pub parts_from : {R : Type 0} → (String → Option R) → String → List Piece → List (Part R)
parts_from parse since [] = push_text since []
parts_from parse since (plain c ∷ pieces) = parts_from parse (append since (String.◌∷◌ c "")) pieces
parts_from parse since (token t ∷ pieces) = elim (parse t) [
  | none ↦ parts_from parse (append since t) pieces
  | some r ↦ push_text since (ref r ∷ parts_from parse "" pieces)
]

abbrev pub or_whole : {R : Type 0} → String → List (Part R) → List (Part R)
or_whole s [] = text s ∷ []
or_whole s (p ∷ parts) = p ∷ parts

unfoldable pub split_tokens :
    {R : Type 0} → List String → (String → Option R) → String → List (Part R)
split_tokens prefixes parse s = or_whole s (parts_from parse "" (match_all prefixes 0 s))

-- The card that a token stands for.
pub data CardRef : Type 0 where
  doc : DocRef → CardRef
  task : TaskRef → CardRef
  job : JobRef → CardRef
  batch : BatchRef → CardRef
  whiteboard : WhiteboardRef → CardRef
  img : ImgRef → CardRef

abbrev pub token_prefixes : List String
token_prefixes =
    doc_ref_prefix ∷ task_ref_prefix ∷ batch_ref_prefix ∷ job_ref_prefix ∷ whiteboard_ref_prefix
    ∷ img_ref_prefix ∷ []

-- `if (!part) part = …`
abbrev pub or_try : Option CardRef → Option CardRef → Option CardRef
or_try none next = next
or_try (some r) next = some r

module _ (form : FormCodec) where
  unfoldable pub parse_card : String → Option CardRef
  parse_card t = or_try (map_option doc (parse_doc_ref form t)) (
      or_try (map_option task (parse_task_ref form t)) (
        or_try (map_option batch (parse_batch_ref form t)) (
          or_try (map_option job (parse_job_ref form t)) (
            or_try (map_option whiteboard (parse_whiteboard_ref form t))
              (map_option img (parse_img_ref form t))))))

  -- The token of each card.
  abbrev pub encode_card : CardRef → String
  encode_card (doc r) = encode_doc_ref form r
  encode_card (task r) = encode_task_ref form r
  encode_card (job r) = encode_job_ref form r
  encode_card (batch r) = encode_batch_ref form r
  encode_card (whiteboard r) = encode_whiteboard_ref form r
  encode_card (img r) = encode_img_ref form r

  unfoldable pub split_ref_tokens : String → List (Part CardRef)
  split_ref_tokens = split_tokens token_prefixes parse_card

  unfoldable pub split_doc_refs : String → List (Part DocRef)
  split_doc_refs = split_tokens (doc_ref_prefix ∷ []) (parse_doc_ref form)

  unfoldable pub split_mentions : String → List (Part MentionRef)
  split_mentions = split_tokens (mention_prefix ∷ []) (parse_mention form)
