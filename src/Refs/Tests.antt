-- ===== src/Refs/Tests.antt =====
-- Tests of the tokens, and the theorems at concrete inputs.
use fusion_on_prem_server.Base.{◌≡◌, refl, List, [], ◌∷◌}
use fusion_on_prem_server.Refs.Codec.{unary}
use fusion_on_prem_server.Refs.Scheme.{drop_brackets, JobRef, MentionRef, link_to}
use fusion_on_prem_server.Refs.Split.{
  Part, text, ref, CardRef, task, batch, parse_card, split_ref_tokens, split_mentions, split_tokens,
  parts_from, match_all,
}
use fusion_on_prem_server.Refs.RoundTrip.{IsCardNamed}
use fusion_on_prem_server.Refs.Spells.{Spells, split_ref_tokens-Spells}
use fusion_on_prem_server.Refs.Weave.{weave}
use fusion_on_prem_server.Refs.Woven.{
  card_scheme, mention_scheme, split_ref_tokens-weave, split_mentions-weave,
}

abbrev some_job : JobRef
some_job = record {
  hub_id = "h1";
  project_id = "p1";
  project_name = "Frame";
  job_id = "j1";
  job_name = "Mill";
}

abbrev some_batch : CardRef
some_batch = batch (record { job = some_job; batch_id = "b1"; batch_name = "First" })

abbrev some_task : CardRef
some_task = task (record { hub_id = ""; project_id = "p1"; task_id = "t4"; title = "Weld" })

abbrev task_named : IsCardNamed some_task
task_named = (refl, refl, refl)

abbrev batch_named : IsCardNamed some_batch
batch_named = ((refl, refl, refl, refl), refl, refl)

abbrev some_mention : MentionRef
some_mention = record { user_id = "u1"; name = "" }

test_link : link_to "a[b]" "t" ≡ "[ab](t)"
unfolding drop_brackets
test_link = refl

test_bare : split_ref_tokens unary "see fls:doc?, or" ≡ text "see fls:doc?, or" ∷ []
unfolding split_ref_tokens split_tokens parts_from match_all
test_bare = refl

test_empty : split_ref_tokens unary "" ≡ text "" ∷ []
unfolding split_ref_tokens split_tokens parts_from match_all
test_empty = refl

split_ref_tokens-Spells_example :
    Spells (parse_card unary) (split_ref_tokens unary "see fls:doc?x, or") "see fls:doc?x, or"
split_ref_tokens-Spells_example = split_ref_tokens-Spells unary "see fls:doc?x, or"

abbrev woven_parts : List (Part CardRef)
woven_parts = ref some_task ∷ text ", " ∷ ref some_batch ∷ []

split_ref_tokens-weave_example :
    split_ref_tokens unary (weave (card_scheme unary) (text "do: " ∷ woven_parts))
    ≡ text "do: " ∷ woven_parts
split_ref_tokens-weave_example = split_ref_tokens-weave unary (text "do: ") woven_parts (
  refl,
  (refl, (refl, (refl, (refl, tt)))),
  tt,
  (task_named, refl, (refl, (refl, (refl, tt)), tt, (batch_named, tt, tt))),
)

split_mentions-weave_example :
    split_mentions unary (weave (mention_scheme unary) (ref some_mention ∷ text "!" ∷ []))
    ≡ ref some_mention ∷ text "!" ∷ []
split_mentions-weave_example =
    split_mentions-weave unary (ref some_mention) (text "!" ∷ [])
      (refl, refl, (refl, (refl, tt), tt, tt))
