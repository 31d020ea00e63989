-- ===== src/Board/Protocol.antt =====
-- web/src/whiteboards/sync/protocol.ts: patches on the wire, their queue, and inbound frames.
-- A record of the board is an opaque value `V`, as in the source (`unknown`).
pub mod Squash
pub mod Effect
pub mod Diff
pub mod Frames
use mathlib.Core.List.{foldl}
use fusion_on_prem_server.Base.{
  ℕ, ◌+◌, max, String, Bool, ◌&&◌, List, [], ◌∷◌, map, leb, ltb, if◌then◌else◌, str_eq,
}
use fusion_on_prem_server.Base.Dict.{Dict, insert, erase, add_elem, delete_elem}

pub record WirePatch (V : Type 0) : Type 0 where
  pub put : Dict V
  pub remove : List String

-- What `store.listen` reports; `updated` holds the old and the new record.
pub record RecordsDiff (V : Type 0) : Type 0 where
  pub added : Dict V
  pub updated : Dict (V × V)
  pub removed : Dict V

pub record PatchFrame (V : Type 0) : Type 0 where
  pub rev : ℕ
  pub client_id : String
  pub put : Dict V
  pub remove : List String

-- `out.put` and `removed` of `squash`.
pub record Squashed (V : Type 0) : Type 0 where
  pub put : Dict V
  pub removed : List String

abbrev pub no_entries {ℓ} : {A : Type ℓ} → List A → Bool
no_entries [] = Bool.true
no_entries (x ∷ xs) = Bool.false

module _ {V : Type 0} where
  abbrev pub empty_patch : WirePatch V
  empty_patch = record { put = []; remove = [] }

  unfoldable pub is_empty_patch : WirePatch V → Bool
  is_empty_patch p = no_entries p.put && no_entries p.remove

  -- for (const [id, rec] of entries) out[id] = rec
  abbrev pub put_entries : Dict V → Dict V → Dict V
  put_entries out [] = out
  put_entries out ((id, rec) ∷ entries) = put_entries (insert id rec out) entries

  -- The three loops of `diffToPatch`, in order.
  abbrev pub new_records : Dict (V × V) → Dict V
  new_records = map (λ e. (e.0, e.1.1))

  abbrev pub keys : Dict V → List String
  keys = map (λ e. e.0)

  unfoldable pub diff_to_patch : RecordsDiff V → WirePatch V
  diff_to_patch diff = record {
    put = put_entries (put_entries [] diff.added) (new_records diff.updated);
    remove = keys diff.removed;
  }

  unfoldable pub squash_puts : Squashed V → Dict V → Squashed V
  squash_puts s [] = s
  squash_puts s ((id, rec) ∷ entries) =
      squash_puts (record { put = insert id rec s.put; removed = delete_elem id s.removed }) entries

  unfoldable pub squash_removes : Squashed V → List String → Squashed V
  squash_removes s [] = s
  squash_removes s (id ∷ ids) =
      squash_removes (record { put = erase id s.put; removed = add_elem id s.removed }) ids

  unfoldable pub squash_from : Squashed V → List (WirePatch V) → Squashed V
  squash_from s [] = s
  squash_from s (p ∷ ps) = squash_from (squash_removes (squash_puts s p.put) p.remove) ps

  unfoldable pub squash : List (WirePatch V) → WirePatch V
  squash patches =
      let s = squash_from (record { put = []; removed = [] }) patches in
      record { put = s.put; remove = s.removed }

pub data FrameAction : Type 0 where
  skip apply resync : FrameAction

unfoldable pub classify_frame : {V : Type 0} → PatchFrame V → ℕ → String → FrameAction
classify_frame frame applied_rev my_client_id =
    if leb frame.rev applied_rev
    then skip
    else if ltb (applied_rev + 1) frame.rev
    then resync
    else if str_eq frame.client_id my_client_id
    then skip
    else apply

unfoldable pub next_rev : {V : Type 0} → FrameAction → PatchFrame V → ℕ → ℕ
next_rev resync frame applied_rev = applied_rev
next_rev _ frame applied_rev = max applied_rev frame.rev
