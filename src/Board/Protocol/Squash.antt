-- ===== src/Board/Protocol/Squash.antt =====
-- `squash` of web/src/whiteboards/sync/protocol.ts: one patch that does what the queue does.
use mathlib.Core.Path.{fun_ext}
use fusion_on_prem_server.Base.{
  String, ◌≡◌, refl, ap, ◌∙◌, true, none, some, List, [], ◌∷◌, arith, if◌then◌else◌, str_eq, eq_iff,
}
use fusion_on_prem_server.Base.Dict.{
  Dict, lookup, insert, erase, lookup-insert, lookup-erase, HasUniqueKeys, insert-HasUniqueKeys,
  erase-HasUniqueKeys, elem, add_elem, delete_elem, elem-add_elem, elem-delete_elem,
}
use fusion_on_prem_server.Board.Protocol.{
  WirePatch, Squashed, squash_puts, squash_removes, squash_from, squash,
}
use fusion_on_prem_server.Board.Protocol.Diff.{
  Doc, written, put_all, put_all-written, apply_patch, apply_all,
}

module _ {V : Type 0} where
  -- What the state of the loop does to a document.
  abbrev effect : Squashed V → Doc V → Doc V
  effect s doc k = if elem k s.removed then none else written (lookup k s.put) (doc k)

  abbrev put_step : Squashed V → String → V → Squashed V
  put_step s id rec = record { put = insert id rec s.put; removed = delete_elem id s.removed }

  abbrev remove_step : Squashed V → String → Squashed V
  remove_step s id = record { put = erase id s.put; removed = add_elem id s.removed }

  effect-put :
      (s : Squashed V) (id : String) (rec : V) (doc : Doc V)
      → effect (put_step s id rec) doc ≡ (λ k. if str_eq id k then some rec else effect s doc k)
  effect-put s id rec doc = fun_ext λ k.
      ground (arith, eq_iff id k, lookup-insert id k rec s.put, elem-delete_elem id k s.removed)

  effect-remove :
      (s : Squashed V) (id : String) (doc : Doc V)
      → effect (remove_step s id) doc ≡ (λ k. if str_eq id k then none else effect s doc k)
  effect-remove s id doc =
      fun_ext
        λ k. ground (arith, eq_iff id k, lookup-erase id k s.put, elem-add_elem id k s.removed)

  effect-squash_puts :
      (s : Squashed V) (m : Dict V) (doc : Doc V) (k : String)
      → effect (squash_puts s m) doc k ≡ put_all m (effect s doc) k
  unfolding squash_puts
  effect-squash_puts s [] doc k = refl
  effect-squash_puts s ((id, rec) ∷ m) doc k =
      effect-squash_puts (put_step s id rec) m doc k
      ∙ ap (λ d. put_all m d k) (effect-put s id rec doc)

  effect-squash_removes :
      (s : Squashed V) (ids : List String) (doc : Doc V) (k : String)
      → effect (squash_removes s ids) doc k ≡ (if elem k ids then none else effect s doc k)
  unfolding squash_removes
  effect-squash_removes s [] doc k = refl
  effect-squash_removes s (id ∷ ids) doc k =
      effect-squash_removes (remove_step s id) ids doc k
      ∙ ap (λ (d : Doc V). if elem k ids then none else d k) (effect-remove s id doc)
      ∙ ground arith

  effect-squash_from :
      (s : Squashed V) (ps : List (WirePatch V)) (doc : Doc V) (k : String)
      → effect (squash_from s ps) doc k ≡ apply_all ps (effect s doc) k
  unfolding squash_from
  effect-squash_from s [] doc k = refl
  effect-squash_from s (p ∷ ps) doc k =
      effect-squash_from (squash_removes (squash_puts s p.put) p.remove) ps doc k
      ∙ ap (λ d. apply_all ps d k)
          (fun_ext λ j.
            effect-squash_removes (squash_puts s p.put) p.remove doc j
            ∙ ap (λ o. if elem j p.remove then none else o) (effect-squash_puts s p.put doc j))

  -- No key is both written and removed, and each key is written once.
  pub record IsNormal (put : Dict V) (remove : List String) : Type 0 where
    pub unique : HasUniqueKeys put
    pub disjoint : (k : String) → elem k remove ≡ true → lookup k put ≡ none

  squash_puts-IsNormal :
      (s : Squashed V) (m : Dict V)
      → IsNormal s.put s.removed
      → IsNormal (squash_puts s m).put (squash_puts s m).removed
  unfolding squash_puts
  squash_puts-IsNormal s [] h = h
  squash_puts-IsNormal s ((id, rec) ∷ m) h = squash_puts-IsNormal (put_step s id rec) m (record {
    unique = insert-HasUniqueKeys id rec s.put h.unique;
    disjoint = λ k e. ground (
      arith,
      h.disjoint k,
      eq_iff id k,
      lookup-insert id k rec s.put,
      elem-delete_elem id k s.removed,
    );
  })

  squash_removes-IsNormal :
      (s : Squashed V) (ids : List String)
      → IsNormal s.put s.removed
      → IsNormal (squash_removes s ids).put (squash_removes s ids).removed
  unfolding squash_removes
  squash_removes-IsNormal s [] h = h
  squash_removes-IsNormal s (id ∷ ids) h = squash_removes-IsNormal (remove_step s id) ids (record {
    unique = erase-HasUniqueKeys id s.put h.unique;
    disjoint = λ k e.
        ground
          (arith, h.disjoint k, eq_iff id k, lookup-erase id k s.put, elem-add_elem id k s.removed);
  })

  squash_from-IsNormal :
      (s : Squashed V) (ps : List (WirePatch V))
      → IsNormal s.put s.removed
      → IsNormal (squash_from s ps).put (squash_from s ps).removed
  unfolding squash_from
  squash_from-IsNormal s [] h = h
  squash_from-IsNormal s (p ∷ ps) h =
      squash_from-IsNormal (squash_removes (squash_puts s p.put) p.remove) ps
        (squash_removes-IsNormal (squash_puts s p.put) p.remove (squash_puts-IsNormal s p.put h))

  -- The one patch writes each key once, and no key that it also removes.
  pub squash-IsNormal : (ps : List (WirePatch V)) → IsNormal (squash ps).put (squash ps).remove
  unfolding squash
  squash-IsNormal ps =
      squash_from-IsNormal (record { put = []; removed = [] }) ps
        (record { unique = tt; disjoint = λ k e. refl })

  -- Sending the queue as one patch leaves every document as sending its patches in order does.
  pub apply_patch-squash :
      (ps : List (WirePatch V)) (doc : Doc V) (k : String)
      → apply_patch (squash ps) doc k ≡ apply_all ps doc k
  unfolding squash
  apply_patch-squash ps doc k =
      ap (λ o. if elem k (squash ps).remove then none else o)
        (put_all-written (squash ps).put doc k (squash-IsNormal ps).unique)
      ∙ effect-squash_from (record { put = []; removed = [] }) ps doc k
