-- ===== src/Board/Sync/Confirmed.antt =====
-- The answer to a patch against the frames before it, in web/src/whiteboards/useBoardSync.ts: `send`
-- takes the answer's revision over, and `onFrame` then holds what lies below it for old.
use fusion_on_prem_server.Base.{ℕ, ◌≤◌, ◌<◌, max, ◌≡◌, refl, true, [], arith, leb, le→leb}
use fusion_on_prem_server.Board.Protocol.{PatchFrame, classify_frame}
use fusion_on_prem_server.Board.Store.{TlStore}
use fusion_on_prem_server.Board.Sync.{
  State, accepted, handled, answered, on_frame, on_action, advance,
}

module _ {V : Type 0} (tl : TlStore V) where
  -- After the answer `rev` a frame up to that revision leaves the store as it is, also one that the
  -- client has never applied, and no resync follows.
  pub on_frame-answered :
      (f : PatchFrame V) (s : State tl) (now rev : ℕ)
      → s.applied_rev < f.rev
      → f.rev ≤ rev
      → ((on_frame tl f (answered tl now (accepted rev []) s)).0.store ≡ s.store)
        × ((on_frame tl f (answered tl now (accepted rev []) s)).1 ≡ handled)
  unfolding on_frame answered classify_frame on_action advance
  on_frame-answered f s now rev missed covered =
      let old : leb f.rev (max s.applied_rev rev) ≡ true = le→leb _ _ (omega arith) in
      rw (old, classify_frame) (refl, refl)
