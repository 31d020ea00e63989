-- ===== src/Nav/Url/Tilde.antt =====
-- web/src/state/navUrl.ts: an item with "~" in its name.
use Prim.Native.String
use text.Mathlib.TextLemmas.{append_assoc}
use fusion_on_prem_server.Base.{String, ◌≡◌, ◌≢◌, ap, ◌∙◌, some, [], ◌∷◌, false}
use fusion_on_prem_server.Nav.State.{Item}
use fusion_on_prem_server.Nav.Url.{
  UriCodec, NoTilde, enc, dec, join, hint, document_hint, document_param,
}
use fusion_on_prem_server.Nav.Url.RoundTrip.{truthy_given}
use fusion_on_prem_server.Nav.Url.Split.{dec_last, dec_part}

module _ (uri : UriCodec) where
  open uri use {encode, encode-append, encode-tilde}

  encode_tilde :
      (a b : String)
      → encode (String.◌++◌ a (String.◌++◌ "~" b))
        ≡ String.◌++◌ (encode a) (String.◌++◌ "~" (encode b))
  encode_tilde a b = rw (encode-append a (String.◌++◌ "~" b), encode-append "~" b, encode-tilde)

  dec-tilde :
      (id a b kind : String)
      → NoTilde id
      → NoTilde a
      → NoTilde b
      → NoTilde kind
      → dec uri (enc uri (id ∷ String.◌++◌ a (String.◌++◌ "~" b) ∷ kind ∷ []))
        ≡ id ∷ a ∷ b ∷ kind ∷ []
  unfolding enc
  dec-tilde id a b kind hid ha hb hk =
      dec_part uri id (join (encode (String.◌++◌ a (String.◌++◌ "~" b)) ∷ encode kind ∷ [])) hid
      ∙ ap (◌∷◌ id) (
          ap (λ n. dec uri (String.◌++◌ n (String.◌++◌ "~" (encode kind)))) (encode_tilde a b)
          ∙ ap (dec uri) (
              append_assoc (encode a) (String.◌++◌ "~" (encode b)) (String.◌++◌ "~" (encode kind))
              ∙ ap (String.◌++◌ (encode a))
                  (append_assoc "~" (encode b) (String.◌++◌ "~" (encode kind))))
          ∙ dec_part uri a (String.◌++◌ (encode b) (String.◌++◌ "~" (encode kind))) ha
          ∙ ap (◌∷◌ a) (dec_part uri b (encode kind) hb ∙ ap (◌∷◌ b) (dec_last uri kind hk)))

  -- A link to a document whose name has one "~" is read back with the name cut there, and the rest
  -- of the name in the place of the kind.
  pub document_hint-document_param :
      (i : Item) (a b : String)
      → i.name ≡ String.◌++◌ a (String.◌++◌ "~" b)
      → i.id ≢ ""
      → NoTilde i.id
      → NoTilde a
      → NoTilde b
      → NoTilde i.kind
      → document_hint (dec uri (document_param uri i)) ≡ some (hint i.id a b false)
  document_hint-document_param i a b name given hid ha hb hk =
      ap (λ n. document_hint (dec uri (enc uri (i.id ∷ n ∷ i.kind ∷ [])))) name
      ∙ ap document_hint (dec-tilde i.id a b i.kind hid ha hb hk)
      ∙ rw (truthy_given i.id given)
