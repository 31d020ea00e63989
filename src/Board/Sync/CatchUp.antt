-- ===== src/Board/Sync/CatchUp.antt =====
-- Frames in order of web/src/whiteboards/useBoardSync.ts: the client catches up with the board.
use fusion_on_prem_server.Base.{ℕ, ◌+◌, ◌≡◌, ◌≢◌, refl, some, List, [], ◌∷◌, arith, length}
use fusion_on_prem_server.Base.Dict.{Dict}
use fusion_on_prem_server.Board.Protocol.{
  PatchFrame, FrameAction, skip, apply, resync, classify_frame, next_rev,
}
use fusion_on_prem_server.Board.Protocol.Frames.{resync_iff}
use fusion_on_prem_server.Board.Store.{TlStore}
use fusion_on_prem_server.Board.Sync.{
  State, put_records, remove_records, merge_frame, advance, on_action, on_frame,
}

-- The frames carry the revisions after `r`, none missing.
abbrev pub AreNext : {V : Type 0} → ℕ → List (PatchFrame V) → Type 0
AreNext r [] = Unit
AreNext r (f ∷ fs) = (f.rev ≡ r + 1) × AreNext (r + 1) fs

module _ {V : Type 0} (tl : TlStore V) where
  open tl use {Store, put}

  abbrev pub on_frames : List (PatchFrame V) → State tl → State tl
  on_frames [] s = s
  on_frames (f ∷ fs) s = on_frames fs (on_frame tl f s).0

  module _ (accepts : (s : Store) (m : Dict V) → (t : Store) × (put s m ≡ some t)) where
    put_records-total : (m : Dict V) (s : Store) → (t : Store) × (put_records tl m s ≡ some t)
    unfolding put_records
    put_records-total [] s = (s, refl)
    put_records-total (x ∷ m) s = accepts s (x ∷ m)

    merge_frame-total : (f : PatchFrame V) (s : Store) → (t : Store) × (merge_frame tl f s ≡ some t)
    unfolding merge_frame
    merge_frame-total f s =
        let (t, e) = put_records-total f.put s in
        (remove_records tl f.remove t, rw (e, merge_frame))

    on_action-next :
        (a : FrameAction) (f : PatchFrame V) (s : State tl)
        → a ≢ resync
        → f.rev ≡ s.applied_rev + 1
        → (on_action tl a f s).0.applied_rev ≡ s.applied_rev + 1
    unfolding on_action
    on_action-next resync f s ne new = absurd (ne refl)
    on_action-next skip f s ne new = unfold on_action advance next_rev in omega arith
    on_action-next apply f s ne new =
        let (t, e) = merge_frame-total f s.store in
        rw (e, on_action) (unfold advance next_rev in omega arith)

    on_frame-next :
        (f : PatchFrame V) (s : State tl)
        → f.rev ≡ s.applied_rev + 1
        → (on_frame tl f s).0.applied_rev ≡ s.applied_rev + 1
    unfolding on_frame
    on_frame-next f s new =
        on_action-next (classify_frame f s.applied_rev s.client_id) f s
          (λ e. omega (arith, (resync_iff f s.applied_rev s.client_id).0 e)) new

    -- Frames without a gap take a client, whose store refuses none, to the last one's revision: it
    -- is not held up by echoes of its own.
    pub applied_rev-on_frames :
        (fs : List (PatchFrame V)) (s : State tl)
        → AreNext s.applied_rev fs
        → (on_frames fs s).applied_rev ≡ s.applied_rev + length fs
    applied_rev-on_frames [] s h = omega arith
    applied_rev-on_frames (f ∷ fs) s (new, h) =
        let e = on_frame-next f s new in
        omega (arith, e, applied_rev-on_frames fs (on_frame tl f s).0 (rw e h))
