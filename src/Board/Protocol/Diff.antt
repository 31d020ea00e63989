-- ===== src/Board/Protocol/Diff.antt =====
-- What a patch does to a document, and `diffToPatch` of web/src/whiteboards/sync/protocol.ts.
use fusion_on_prem_server.Base.{
  String, ◌≡◌, refl, sym, Option, none, some, List, [], ◌∷◌, arith, if◌then◌else◌, str_eq, eq_iff,
  is_some,
}
use fusion_on_prem_server.Base.Dict.{
  Dict, lookup, lookup-insert, insert, HasUniqueKeys, insert-HasUniqueKeys, elem,
}
use fusion_on_prem_server.Board.Protocol.{
  WirePatch, RecordsDiff, put_entries, new_records, keys, diff_to_patch,
}

-- The document, as the records that a client can see.
abbrev pub Doc : Type 0 → Type 0
Doc V = String → Option V

module _ {V : Type 0} where
  -- An entry of a list of writes, else the record that was there.
  abbrev pub written : Option V → Option V → Option V
  written none old = old
  written (some new) old = some new

  -- Writing the records one by one, then removing: the order in which `onFrame` applies them.
  abbrev pub put_all : Dict V → Doc V → Doc V
  put_all [] doc k = doc k
  put_all ((id, rec) ∷ entries) doc k =
      put_all entries (λ j. if str_eq id j then some rec else doc j) k

  abbrev pub apply_patch : WirePatch V → Doc V → Doc V
  apply_patch p doc k = if elem k p.remove then none else put_all p.put doc k

  abbrev pub apply_all : List (WirePatch V) → Doc V → Doc V
  apply_all [] doc k = doc k
  apply_all (p ∷ ps) doc k = apply_all ps (apply_patch p doc) k

  -- Where the keys are unique the order of the writes is no matter.
  pub put_all-written :
      (m : Dict V) (doc : Doc V) (k : String)
      → HasUniqueKeys m
      → put_all m doc k ≡ written (lookup k m) (doc k)
  put_all-written [] doc k h = refl
  put_all-written ((id, rec) ∷ m) doc k (new, h) =
      ground
        (arith, eq_iff id k, put_all-written m (λ j. if str_eq id j then some rec else doc j) k h)

  pub put_entries-lookup :
      (out m : Dict V) (k : String)
      → HasUniqueKeys m
      → lookup k (put_entries out m) ≡ written (lookup k m) (lookup k out)
  put_entries-lookup out [] k h = refl
  put_entries-lookup out ((id, rec) ∷ m) k (new, h) =
      ground (
        arith,
        eq_iff id k,
        lookup-insert id k rec out,
        put_entries-lookup (insert id rec out) m k h,
      )

  pub put_entries-HasUniqueKeys :
      (out m : Dict V) → HasUniqueKeys out → HasUniqueKeys (put_entries out m)
  put_entries-HasUniqueKeys out [] h = h
  put_entries-HasUniqueKeys out ((id, rec) ∷ m) h =
      put_entries-HasUniqueKeys (insert id rec out) m (insert-HasUniqueKeys id rec out h)

  elem-keys : (m : Dict V) (k : String) → elem k (keys m) ≡ is_some (lookup k m)
  elem-keys [] k = refl
  elem-keys ((id, rec) ∷ m) k = ground (arith, elem-keys m k)

  abbrev second : Option (V × V) → Option V
  second none = none
  second (some (a, b)) = some b

  lookup-new_records :
      (m : Dict (V × V)) (k : String) → lookup k (new_records m) ≡ second (lookup k m)
  lookup-new_records [] k = refl
  lookup-new_records ((id, (a, b)) ∷ m) k = ground (arith, lookup-new_records m k)

  new_records-HasUniqueKeys : (m : Dict (V × V)) → HasUniqueKeys m → HasUniqueKeys (new_records m)
  new_records-HasUniqueKeys [] h = tt
  new_records-HasUniqueKeys ((id, (a, b)) ∷ m) (new, h) =
      (rw (lookup-new_records, new), new_records-HasUniqueKeys m h)

-- The diff describes the change of the document from `before` to `after`.
pub record Describes {V : Type 0} (d : RecordsDiff V) (before after : Doc V) : Type 0 where
  pub added_unique : HasUniqueKeys d.added
  pub updated_unique : HasUniqueKeys d.updated
  pub adds : (k : String) (v : V) → lookup k d.added ≡ some v → after k ≡ some v
  pub updates : (k : String) (p : V × V) → lookup k d.updated ≡ some p → after k ≡ some p.1
  pub removes : (k : String) (v : V) → lookup k d.removed ≡ some v → after k ≡ none
  pub keeps :
      (k : String)
      → lookup k d.added ≡ none
      → lookup k d.updated ≡ none
      → lookup k d.removed ≡ none
      → after k ≡ before k

module _ {V : Type 0} where
  resolve :
      (a : Option V) (u : Option (V × V)) (r old new : Option V)
      → ((v : V) → a ≡ some v → new ≡ some v)
      → ((p : V × V) → u ≡ some p → new ≡ some p.1)
      → ((v : V) → r ≡ some v → new ≡ none)
      → (a ≡ none → u ≡ none → r ≡ none → new ≡ old)
      → (if is_some r then none else written (written (second u) a) old) ≡ new
  resolve a u (some v) old new adds updates removes keeps = sym (removes v refl)
  resolve a (some p) none old new adds updates removes keeps = sym (updates p refl)
  resolve (some v) none none old new adds updates removes keeps = sym (adds v refl)
  resolve none none none old new adds updates removes keeps = sym (keeps refl refl refl)

module _ {V : Type 0} (d : RecordsDiff V) where
  put-HasUniqueKeys : HasUniqueKeys (diff_to_patch d).put
  unfolding diff_to_patch
  put-HasUniqueKeys =
      put_entries-HasUniqueKeys _ (new_records d.updated) (put_entries-HasUniqueKeys [] d.added tt)

  lookup-put :
      (k : String)
      → HasUniqueKeys d.added
      → HasUniqueKeys d.updated
      → lookup k (diff_to_patch d).put ≡ written (second (lookup k d.updated)) (lookup k d.added)
  unfolding diff_to_patch
  lookup-put k ha hu = ground (
    arith,
    put_entries-lookup (put_entries [] d.added) (new_records d.updated) k
        (new_records-HasUniqueKeys d.updated hu),
    put_entries-lookup [] d.added k ha,
    lookup-new_records d.updated k,
  )

module _ {V : Type 0} (d : RecordsDiff V) (before after : Doc V) where
  -- A document before a change, with the patch of the change's diff, is the document after it, for
  -- a diff that names each added, updated and removed record and no other.
  pub apply_patch-diff_to_patch :
      Describes d before after → (k : String) → apply_patch (diff_to_patch d) before k ≡ after k
  unfolding diff_to_patch
  apply_patch-diff_to_patch h k = ground (
    arith,
    resolve (lookup k d.added) (lookup k d.updated) (lookup k d.removed) (before k) (after k)
        (h.adds k) (h.updates k) (h.removes k) (h.keeps k),
    put_all-written (diff_to_patch d).put before k (put-HasUniqueKeys d),
    elem-keys d.removed k,
    lookup-put d k h.added_unique h.updated_unique,
  )
