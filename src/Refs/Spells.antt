-- ===== src/Refs/Spells.antt =====
-- What the parts of a split text spell, for `splitRefTokens`, `splitDocRefs` and `splitMentions`.
use mathlib.Core.Path.{subst}
use fusion_on_prem_server.Base.{
  ℕ, zero, suc, String, ◌≡◌, refl, sym, ap, ◌∙◌, Option, some, List, [], ◌∷◌, ◌⊎◌, inl, inr,
  Option-cases,
}
use fusion_on_prem_server.Base.Text.{
  append, slice, slice_from, append-nil_text, append_assoc_text, append-slice,
}
use fusion_on_prem_server.Refs.Scheme.{FormCodec}
use fusion_on_prem_server.Refs.Split.{
  Piece, plain, token, Part, text, ref, match_length, match_all, push_text, parts_from, or_whole,
  split_tokens, parse_card, split_ref_tokens,
}

-- The parts one after the other are the text: a run of text is itself, and a reference is a token that
-- parses to it.
pub data Spells {R : Type 0} (parse : String → Option R) : List (Part R) → String → Type 0 where
  nothing : Spells parse [] ""
  run_of :
      (s : String) {parts : List (Part R)} {rest : String}
      → Spells parse parts rest
      → Spells parse (text s ∷ parts) (append s rest)
  token_of :
      (t : String) {r : R} {parts : List (Part R)} {rest : String}
      → parse t ≡ some r
      → Spells parse parts rest
      → Spells parse (ref r ∷ parts) (append t rest)

abbrev pub pieces_text : List Piece → String
pieces_text [] = ""
pieces_text (plain c ∷ pieces) = String.◌∷◌ c (pieces_text pieces)
pieces_text (token t ∷ pieces) = append t (pieces_text pieces)

pub ℕ-cases : (n : ℕ) → (n ≡ 0) ⊎ ((m : ℕ) × (n ≡ suc m))
ℕ-cases zero = inl refl
ℕ-cases (suc n) = inr (n, refl)

-- No character is passed over and none is read twice.
pub pieces_text-match_all :
    (prefixes : List String) (skip : ℕ) (s : String)
    → pieces_text (match_all prefixes skip s) ≡ slice_from skip s
unfolding match_all
pieces_text-match_all prefixes zero String.[] = refl
pieces_text-match_all prefixes (suc skip) String.[] = refl
pieces_text-match_all prefixes (suc skip) (String.◌∷◌ c s) = pieces_text-match_all prefixes skip s
pieces_text-match_all prefixes zero (String.◌∷◌ c s) =
    elim (ℕ-cases (match_length prefixes (String.◌∷◌ c s))) [
      | inl e ↦ rw (e, match_all) (ap (String.◌∷◌ c) (pieces_text-match_all prefixes 0 s))
      | inr (n, e) ↦
          rw (e, match_all)
            (ap (append (slice (suc n) (String.◌∷◌ c s))) (pieces_text-match_all prefixes n s)
              ∙ append-slice (suc n) (String.◌∷◌ c s))
    ]

module _ {R : Type 0} (parse : String → Option R) where
  push_text-Spells :
      (s : String) (parts : List (Part R)) (rest : String)
      → Spells parse parts rest
      → Spells parse (push_text s parts) (append s rest)
  push_text-Spells String.[] parts rest h = h
  push_text-Spells (String.◌∷◌ c s) parts rest h = run_of (String.◌∷◌ c s) h

  parts_from-Spells :
      (since : String) (pieces : List Piece)
      → Spells parse (parts_from parse since pieces) (append since (pieces_text pieces))
  unfolding parts_from
  parts_from-Spells since [] = push_text-Spells since [] "" nothing
  parts_from-Spells since (plain c ∷ pieces) =
      rw (sym (append_assoc_text since (String.◌∷◌ c "") (pieces_text pieces)))
        (parts_from-Spells (append since (String.◌∷◌ c "")) pieces)
  parts_from-Spells since (token t ∷ pieces) = elim (Option-cases (parse t)) [
    | inl e ↦
        rw (e, parts_from)
          (rw (sym (append_assoc_text since t (pieces_text pieces)))
            (parts_from-Spells (append since t) pieces))
    | inr (r, e) ↦
        rw (e, parts_from) (push_text-Spells since _ _ (token_of t e (parts_from-Spells "" pieces)))
  ]

  or_whole-Spells :
      (s : String) (parts : List (Part R))
      → Spells parse parts s
      → Spells parse (or_whole s parts) s
  or_whole-Spells s [] h = subst (Spells parse (text s ∷ [])) (append-nil_text s) (run_of s nothing)
  or_whole-Spells s (p ∷ parts) h = h

  pub split_tokens-Spells :
      (prefixes : List String) (s : String) → Spells parse (split_tokens prefixes parse s) s
  unfolding split_tokens
  split_tokens-Spells prefixes s = or_whole-Spells s _ (
      subst (Spells parse (parts_from parse "" (match_all prefixes 0 s)))
        (pieces_text-match_all prefixes 0 s) (parts_from-Spells "" (match_all prefixes 0 s)))

-- Whatever the text, the parts that its split shows spell it: no character is lost, doubled or
-- moved, and each card stands for a token of the text that parses to it.
pub split_ref_tokens-Spells :
    (form : FormCodec) (s : String) → Spells (parse_card form) (split_ref_tokens form s) s
unfolding split_ref_tokens
split_ref_tokens-Spells form s = split_tokens-Spells (parse_card form) _ s
