-- ===== src/Nav/Url/Split.antt =====
-- Splitting what `enc` of web/src/state/navUrl.ts joins.
use Prim.Native.Char.{Char, code}
use Prim.Native.String
use text.Mathlib.TextLemmas.{nil-append, cons-append, append-nil, append_assoc}
use fusion_on_prem_server.Base.{String, ◌≡◌, ap, ◌∙◌, false, [], ◌∷◌, arith, ◌==◌, or_else}
use fusion_on_prem_server.Nav.Url.{split_from, NoTilde, UriCodec, join, enc, dec}

push-append :
    (cur : String) (c : Char) (a : String)
    → String.◌++◌ (String.◌++◌ cur (String.◌∷◌ c "")) a ≡ String.◌++◌ cur (String.◌∷◌ c a)
push-append cur c a =
    append_assoc cur (String.◌∷◌ c "") a ∙ ap (String.◌++◌ cur) (rw (cons-append, nil-append))

-- A part without "~" is split off whole.
split_from-plain : (cur a : String) → NoTilde a → split_from cur a ≡ String.◌++◌ cur a ∷ []
unfolding split_from
split_from-plain cur String.[] h = rw append-nil
split_from-plain cur (String.◌∷◌ c a) (other, h) =
    let goes_on : (code c == b'~') ≡ false = ground arith in
    rw goes_on (
      split_from-plain (String.◌++◌ cur (String.◌∷◌ c "")) a h
      ∙ ap (λ s. s ∷ []) (push-append cur c a))

split_from-part :
    (cur a b : String)
    → NoTilde a
    → split_from cur (String.◌++◌ a (String.◌++◌ "~" b)) ≡ String.◌++◌ cur a ∷ split_from "" b
unfolding split_from
split_from-part cur String.[] b h = rw (nil-append, cons-append, nil-append, append-nil)
split_from-part cur (String.◌∷◌ c a) b (other, h) =
    let goes_on : (code c == b'~') ≡ false = ground arith in
    rw (cons-append, goes_on)
      (split_from-part (String.◌++◌ cur (String.◌∷◌ c "")) a b h
        ∙ ap (λ s. s ∷ split_from "" b) (push-append cur c a))

module _ (uri : UriCodec) where
  open uri use {encode, decode, decode-encode, encode-NoTilde}

  decode_part : (s : String) → or_else (decode (encode s)) (encode s) ≡ s
  decode_part s = rw decode-encode

  pub dec_last : (a : String) → NoTilde a → dec uri (encode a) ≡ a ∷ []
  unfolding dec
  dec_last a ha = rw (split_from-plain "" (encode a) (encode-NoTilde a ha), nil-append, decode_part)

  pub dec_part :
      (a b : String)
      → NoTilde a
      → dec uri (String.◌++◌ (encode a) (String.◌++◌ "~" b)) ≡ a ∷ dec uri b
  unfolding dec
  dec_part a b ha =
      rw (split_from-part "" (encode a) b (encode-NoTilde a ha), nil-append, decode_part)

  -- Two parts without "~" come back as they were.
  pub dec-enc : (a b : String) → NoTilde a → NoTilde b → dec uri (enc uri (a ∷ b ∷ [])) ≡ a ∷ b ∷ []
  unfolding enc
  dec-enc a b ha hb = dec_part a (encode b) ha ∙ ap (◌∷◌ a) (dec_last b hb)

  pub dec-enc_three :
      (a b c : String)
      → NoTilde a
      → NoTilde b
      → NoTilde c
      → dec uri (enc uri (a ∷ b ∷ c ∷ [])) ≡ a ∷ b ∷ c ∷ []
  unfolding enc
  dec-enc_three a b c ha hb hc =
      dec_part a (join (encode b ∷ encode c ∷ [])) ha
      ∙ ap (◌∷◌ a) (dec_part b (encode c) hb ∙ ap (◌∷◌ b) (dec_last c hc))
