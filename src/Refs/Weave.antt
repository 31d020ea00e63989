-- ===== src/Refs/Weave.antt =====
-- Splitting a text that was woven from plain runs and tokens, for `splitRefTokens` and `splitMentions`.
use fusion_on_prem_server.Base.{
  ℕ, ◌+◌, String, ◌≡◌, refl, ap, ◌∙◌, Option, some, List, [], ◌∷◌, arith,
}
use fusion_on_prem_server.Base.Text.{
  append, string_length, strip_prefix-append, span_length-append, string_length-append,
  slice-append, append-nil_text, append_assoc_text, AllChars, StartsOutside,
}
use fusion_on_prem_server.Refs.Scheme.{is_token_char}
use fusion_on_prem_server.Refs.Split.{
  Part, text, ref, match_rest, match_length, match_all, push_text, parts_from, split_tokens,
}
use fusion_on_prem_server.Refs.RoundTrip.{IsGiven}

-- Tokens that a split finds and reads: what `splitRefTokens` and `splitMentions` share.
pub record TokenScheme (R : Type 0) : Type 1 where
  pub prefixes : List String
  pub parse : String → Option R
  pub encode : R → String
  pub IsNamed : R → Type 0
  pub parse-encode : (r : R) → IsNamed r → parse (encode r) ≡ some r
  pub match-encode :
      (r : R) (rest : String)
      → StartsOutside is_token_char rest
      → match_length prefixes (append (encode r) rest) ≡ string_length (encode r)
  pub encode_given : (r : R) → IsGiven (encode r)

module _ {R : Type 0} (scheme : TokenScheme R) where
  open scheme use {prefixes, parse, encode, IsNamed, parse-encode, match-encode, encode_given}

  abbrev pub weave : List (Part R) → String
  weave [] = ""
  weave (text s ∷ parts) = append s (weave parts)
  weave (ref r ∷ parts) = append (encode r) (weave parts)

  -- No token starts within the run, whatever of the rest it may take.
  abbrev pub HasNoToken : String → String → Type 0
  HasNoToken String.[] rest = Unit
  HasNoToken (String.◌∷◌ c s) rest =
      (match_length prefixes (String.◌∷◌ c (append s rest)) ≡ 0) × HasNoToken s rest

  abbrev pub StartsWithToken : List (Part R) → Type 0
  StartsWithToken [] = Unit
  StartsWithToken (text s ∷ parts) = ⊥
  StartsWithToken (ref r ∷ parts) = Unit

  -- Runs are not empty, hold no token and do not meet, and no token runs on into what follows it.
  abbrev pub IsWoven : List (Part R) → Type 0
  IsWoven [] = Unit
  IsWoven (text s ∷ parts) =
      IsGiven s × HasNoToken s (weave parts) × StartsWithToken parts × IsWoven parts
  IsWoven (ref r ∷ parts) = IsNamed r × StartsOutside is_token_char (weave parts) × IsWoven parts

  match_all-skip :
      (s rest : String)
      → match_all prefixes (string_length s) (append s rest) ≡ match_all prefixes 0 rest
  unfolding match_all
  match_all-skip String.[] rest = refl
  match_all-skip (String.◌∷◌ c s) rest = match_all-skip s rest

  parts_from-run :
      (since s rest : String)
      → HasNoToken s rest
      → parts_from parse since (match_all prefixes 0 (append s rest))
        ≡ parts_from parse (append since s) (match_all prefixes 0 rest)
  unfolding match_all parts_from
  parts_from-run since String.[] rest h = rw (append-nil_text since) refl
  parts_from-run since (String.◌∷◌ c s) rest (none_here, h) =
      rw
        (
          none_here,
          match_all,
          parts_from,
          parts_from-run (append since (String.◌∷◌ c "")) s rest h,
          append_assoc_text since (String.◌∷◌ c "") s,
        )
        refl

  parts_from-token :
      (since t rest : String) (r : R)
      → IsGiven t
      → match_length prefixes (append t rest) ≡ string_length t
      → parse t ≡ some r
      → parts_from parse since (match_all prefixes 0 (append t rest))
        ≡ push_text since (ref r ∷ parts_from parse "" (match_all prefixes 0 rest))
  unfolding match_all parts_from
  parts_from-token since String.[] rest r given found read = ground arith
  parts_from-token since (String.◌∷◌ c t) rest r given found read =
      rw (found, match_all, slice-append t rest, parts_from, read, match_all-skip t rest) refl

  parts_from-weave :
      (parts : List (Part R))
      → IsWoven parts
      → parts_from parse "" (match_all prefixes 0 (weave parts)) ≡ parts
  unfolding match_all parts_from
  parts_from-weave [] h = refl
  parts_from-weave (ref r ∷ parts) (named, outside, h) =
      parts_from-token "" (encode r) (weave parts) r (encode_given r)
        (match-encode r (weave parts) outside) (parse-encode r named)
      ∙ ap (λ ps. ref r ∷ ps) (parts_from-weave parts h)
  parts_from-weave (text s ∷ []) (given, none_here, next, h) =
      parts_from-run "" s "" none_here ∙ rw given refl
  parts_from-weave (text s ∷ text t ∷ parts) (given, none_here, next, h) = absurd next
  parts_from-weave (text s ∷ ref r ∷ parts) (given, none_here, next, (named, outside, h)) =
      parts_from-run "" s (append (encode r) (weave parts)) none_here
      ∙ parts_from-token s (encode r) (weave parts) r (encode_given r)
          (match-encode r (weave parts) outside) (parse-encode r named)
      ∙ rw given (ap (λ ps. text s ∷ ref r ∷ ps) (parts_from-weave parts h))

  pub split_tokens-weave :
      (p : Part R) (parts : List (Part R))
      → IsWoven (p ∷ parts)
      → split_tokens prefixes parse (weave (p ∷ parts)) ≡ p ∷ parts
  unfolding split_tokens
  split_tokens-weave p parts h = rw (parts_from-weave (p ∷ parts) h) refl

match_rest-append :
    (n : ℕ) (q rest : String)
    → IsGiven q
    → AllChars is_token_char q
    → StartsOutside is_token_char rest
    → match_rest n (some (append q rest)) ≡ n + string_length q
match_rest-append n String.[] rest given h outside = ground arith
match_rest-append n (String.◌∷◌ c q) rest given h outside =
    rw (span_length-append is_token_char (String.◌∷◌ c q) rest h outside) (ground arith)

pub match_length-here :
    (p : String) (ps : List String) (q rest : String)
    → IsGiven q
    → AllChars is_token_char q
    → StartsOutside is_token_char rest
    → match_length (p ∷ ps) (append (append p q) rest) ≡ string_length (append p q)
match_length-here p ps String.[] rest given h outside = ground arith
match_length-here p ps (String.◌∷◌ c q) rest given h outside =
    rw
      (
        append_assoc_text p (String.◌∷◌ c q) rest,
        strip_prefix-append p (append (String.◌∷◌ c q) rest),
        match_rest-append (string_length p) (String.◌∷◌ c q) rest given h outside,
        string_length-append p (String.◌∷◌ c q),
      )
      (ground arith)
