-- ===== src/Board/Protocol/Frames.antt =====
-- `classifyFrame` and `nextRev` of web/src/whiteboards/sync/protocol.ts.
use fusion_on_prem_server.Base.{ℕ, ◌+◌, ◌≤◌, ◌<◌, String, ◌≡◌, ◌≢◌, ◌↔◌, ◌⊎◌, arith, eq_iff}
use fusion_on_prem_server.Board.Protocol.{PatchFrame, skip, apply, resync, classify_frame, next_rev}

module _ {V : Type 0} (frame : PatchFrame V) (rev : ℕ) (me : String) where
  -- A frame is applied exactly when it is the next revision and comes from another client.
  pub apply_iff :
      (classify_frame frame rev me ≡ apply) ↔ ((frame.rev ≡ rev + 1) × (frame.client_id ≢ me))
  unfolding classify_frame
  apply_iff = (
    λ h. ground (arith, eq_iff frame.client_id me),
    λ h. ground (arith, eq_iff frame.client_id me),
  )

  -- A frame calls for a resync exactly when a revision is missing, its own echo included.
  pub resync_iff : (classify_frame frame rev me ≡ resync) ↔ (rev + 1 < frame.rev)
  unfolding classify_frame
  resync_iff = ground arith

  -- Handling a frame never takes the revision back, moves it by one at most, and past the frame
  -- exactly when there is no gap.
  pub next_rev_step :
      (rev ≤ next_rev (classify_frame frame rev me) frame rev)
      × (next_rev (classify_frame frame rev me) frame rev ≤ rev + 1)
      × ((frame.rev ≤ next_rev (classify_frame frame rev me) frame rev) ↔ (frame.rev ≤ rev + 1))
  unfolding classify_frame next_rev
  next_rev_step = ground arith

  -- What happens to another client's frame, by its revision.
  pub classify_frame_other :
      frame.client_id ≢ me
      → ((classify_frame frame rev me ≡ skip) × (frame.rev ≤ rev))
        ⊎ (classify_frame frame rev me ≡ resync)
        ⊎ ((classify_frame frame rev me ≡ apply) × (frame.rev ≡ rev + 1))
  unfolding classify_frame
  classify_frame_other other = ground (arith, eq_iff frame.client_id me)
