-- ===== src/Board/Protocol/Effect.antt =====
-- When two queues of patches do the same to every document.
use mathlib.Core.Path.{fun_ext}
use fusion_on_prem_server.Base.{String, ◌≡◌, refl, sym, ap, ◌∙◌, true, List, [], ◌∷◌, ◌++◌, arith}
use fusion_on_prem_server.Board.Protocol.{WirePatch, squash, is_empty_patch}
use fusion_on_prem_server.Board.Protocol.Diff.{Doc, apply_patch, apply_all}
use fusion_on_prem_server.Board.Protocol.Squash.{apply_patch-squash}

module _ {V : Type 0} where
  -- Both queues, applied in order, give the same document.
  abbrev pub Same : List (WirePatch V) → List (WirePatch V) → Type 0
  Same ps qs = (doc : Doc V) (k : String) → apply_all ps doc k ≡ apply_all qs doc k

  apply_all-append :
      (ps qs : List (WirePatch V)) (doc : Doc V) (k : String)
      → apply_all (ps ++ qs) doc k ≡ apply_all qs (apply_all ps doc) k
  apply_all-append [] qs doc k = refl
  apply_all-append (p ∷ ps) qs doc k = apply_all-append ps qs (apply_patch p doc) k

  pub Same-append :
      (ps ps' qs qs' : List (WirePatch V))
      → Same ps ps'
      → Same qs qs'
      → Same (ps ++ qs) (ps' ++ qs')
  Same-append ps ps' qs qs' h h' doc k =
      apply_all-append ps qs doc k
      ∙ ap (λ d. apply_all qs d k) (fun_ext (h doc))
      ∙ h' (apply_all ps' doc) k
      ∙ sym (apply_all-append ps' qs' doc k)

  pub Same-squash : (ps : List (WirePatch V)) → Same (squash ps ∷ []) ps
  Same-squash ps doc k = apply_patch-squash ps doc k

  pub Same-empty : (p : WirePatch V) → is_empty_patch p ≡ true → Same (p ∷ []) []
  unfolding is_empty_patch
  Same-empty p e doc k = ground arith
