-- ===== src/Refs/Woven.antt =====
-- The tokens that `splitRefTokens` and `splitMentions` find, woven into a text and split out of it.
use fusion_on_prem_server.Base.{String, ◌≡◌, refl, List, [], ◌∷◌}
use fusion_on_prem_server.Base.Text.{append, string_length, StartsOutside}
use fusion_on_prem_server.Refs.Scheme.{
  FormCodec, is_token_char, MentionRef, mention_params, doc_params, task_params, job_params,
  batch_params, whiteboard_params, img_params, doc_ref_prefix, task_ref_prefix, job_ref_prefix,
  batch_ref_prefix, whiteboard_ref_prefix, img_ref_prefix, mention_prefix, encode_mention,
  parse_mention,
}
use fusion_on_prem_server.Refs.Split.{
  Part, match_length, token_prefixes, CardRef, doc, task, job, batch, whiteboard, img, parse_card,
  encode_card, split_ref_tokens, split_mentions,
}
use fusion_on_prem_server.Refs.RoundTrip.{
  IsGiven, IsCardNamed, parse_card-encode_card, parse_mention-encode_mention,
}
use fusion_on_prem_server.Refs.Weave.{
  TokenScheme, weave, IsWoven, split_tokens-weave, match_length-here,
}

module _ (form : FormCodec) where
  open form use {print, print-AllChars, print_given}

  pub match_length-encode_card :
      (r : CardRef) (rest : String)
      → StartsOutside is_token_char rest
      → match_length token_prefixes (append (encode_card form r) rest)
        ≡ string_length (encode_card form r)
  match_length-encode_card (doc r) rest outside =
      match_length-here doc_ref_prefix
        (task_ref_prefix ∷ batch_ref_prefix ∷ job_ref_prefix ∷ whiteboard_ref_prefix
          ∷ img_ref_prefix ∷ [])
        (print (doc_params r)) rest (print_given _ _ _) (print-AllChars _) outside
  match_length-encode_card (task r) rest outside =
      match_length-here task_ref_prefix
        (batch_ref_prefix ∷ job_ref_prefix ∷ whiteboard_ref_prefix ∷ img_ref_prefix ∷ [])
        (print (task_params r)) rest (print_given _ _ _) (print-AllChars _) outside
  match_length-encode_card (job r) rest outside =
      match_length-here job_ref_prefix (whiteboard_ref_prefix ∷ img_ref_prefix ∷ [])
        (print (job_params r)) rest (print_given _ _ _) (print-AllChars _) outside
  match_length-encode_card (batch r) rest outside =
      match_length-here batch_ref_prefix
        (job_ref_prefix ∷ whiteboard_ref_prefix ∷ img_ref_prefix ∷ []) (print (batch_params r)) rest
        (print_given _ _ _) (print-AllChars _) outside
  match_length-encode_card (whiteboard r) rest outside =
      match_length-here whiteboard_ref_prefix (img_ref_prefix ∷ []) (print (whiteboard_params r))
        rest (print_given _ _ _) (print-AllChars _) outside
  match_length-encode_card (img r) rest outside =
      match_length-here img_ref_prefix [] (print (img_params r)) rest (print_given _ _ _)
        (print-AllChars _) outside

  pub encode_card-IsGiven : (r : CardRef) → IsGiven (encode_card form r)
  encode_card-IsGiven (doc r) = refl
  encode_card-IsGiven (task r) = refl
  encode_card-IsGiven (job r) = refl
  encode_card-IsGiven (batch r) = refl
  encode_card-IsGiven (whiteboard r) = refl
  encode_card-IsGiven (img r) = refl

  abbrev pub card_scheme : TokenScheme CardRef
  card_scheme = record {
    prefixes = token_prefixes;
    parse = parse_card form;
    encode = encode_card form;
    IsNamed = IsCardNamed;
    parse-encode = parse_card-encode_card form;
    match-encode = match_length-encode_card;
    encode_given = encode_card-IsGiven;
  }

  abbrev pub mention_scheme : TokenScheme MentionRef
  mention_scheme = record {
    prefixes = mention_prefix ∷ [];
    parse = parse_mention form;
    encode = encode_mention form;
    IsNamed = λ m. IsGiven m.user_id;
    parse-encode = parse_mention-encode_mention form;
    match-encode = λ m rest outside.
        match_length-here mention_prefix [] (print (mention_params m)) rest (print_given _ _ _)
          (print-AllChars _) outside;
    encode_given = λ m. refl;
  }

  -- A text woven from plain runs and cards is split into just these again, where no token starts
  -- within a run, no run is empty, no two runs meet, each card has its names, and no token's
  -- letters run on into what follows.
  pub split_ref_tokens-weave :
      (p : Part CardRef) (parts : List (Part CardRef))
      → IsWoven card_scheme (p ∷ parts)
      → split_ref_tokens form (weave card_scheme (p ∷ parts)) ≡ p ∷ parts
  unfolding split_ref_tokens
  split_ref_tokens-weave p parts h = split_tokens-weave card_scheme p parts h

  -- A text woven from plain runs and mentions is split into just these again, where no token starts
  -- within a run, no run is empty, no two runs meet, each mention has a user's id, and no token's
  -- letters run on into what follows.
  pub split_mentions-weave :
      (p : Part MentionRef) (parts : List (Part MentionRef))
      → IsWoven mention_scheme (p ∷ parts)
      → split_mentions form (weave mention_scheme (p ∷ parts)) ≡ p ∷ parts
  unfolding split_mentions
  split_mentions-weave p parts h = split_tokens-weave mention_scheme p parts h
