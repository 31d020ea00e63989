-- ===== src/Board/Sync/Inbound.antt =====
-- Frames and re-reads of web/src/whiteboards/useBoardSync.ts against the history of the board that
-- the server keeps: `history r` is the document at revision `r`.
use mathlib.Core.Path.{fun_ext}
use fusion_on_prem_server.Base.{
  ℕ, ◌+◌, ◌≤◌, max, String, ◌≡◌, ◌≢◌, refl, sym, ap, ◌∙◌, Bool, true, false, none, some, inl, inr,
  List, [], ◌∷◌, arith, if◌then◌else◌, Option-cases, map_option, is_some, not,
}
use fusion_on_prem_server.Base.Dict.{Dict, lookup, elem}
use fusion_on_prem_server.Board.Protocol.{
  PatchFrame, WirePatch, FrameAction, skip, apply, resync, next_rev,
}
use fusion_on_prem_server.Board.Protocol.Diff.{Doc, put_all, apply_patch}
use fusion_on_prem_server.Board.Protocol.Frames.{classify_frame_other}
use fusion_on_prem_server.Board.Store.{TlStore}
use fusion_on_prem_server.Board.Sync.{
  State, put_records, remove_records, FrameResult, broken, resync_done, merge_frame, advance,
  on_action, on_frame,
}

abbrev pub patch_of : {V : Type 0} → PatchFrame V → WirePatch V
patch_of f = record { put = f.put; remove = f.remove }

module _ {V : Type 0} (tl : TlStore V) (history : ℕ → Doc V) where
  open tl use {Store, get, load}

  get-put_records :
      (m : Dict V) (s t : Store) (k : String)
      → put_records tl m s ≡ some t
      → get t k ≡ put_all m (get s) k
  unfolding put_records
  get-put_records [] s t k e = ground arith
  get-put_records (x ∷ m) s t k e = tl.get-put s t (x ∷ m) k e

  get-remove_records :
      (ids : List String) (s : Store) (k : String)
      → get (remove_records tl ids s) k ≡ (if elem k ids then none else get s k)
  get-remove_records [] s k = refl
  get-remove_records (id ∷ ids) s k = tl.get-remove s (id ∷ ids) k

  merge_frame-get :
      (f : PatchFrame V) (s t : Store) (k : String)
      → merge_frame tl f s ≡ some t
      → get t k ≡ apply_patch (patch_of f) (get s) k
  unfolding merge_frame
  merge_frame-get f s t k e = elim (Option-cases (put_records tl f.put s)) [
    | inl refused ↦ ground arith
    | inr (u, written) ↦ ground (
      arith,
      get-put_records f.put s u k written,
      get-remove_records f.remove u k,
      ap (λ o. map_option (λ v. get v k) o) e,
    )
  ]

  -- The client shows the document of its revision.
  abbrev pub Agrees : State tl → Type 0
  Agrees s = (k : String) → get s.store k ≡ history s.applied_rev k

  -- The frame is the server's step to its revision, and another client's.
  pub record IsStep (me : String) (f : PatchFrame V) : Type 0 where
    pub other : f.client_id ≢ me
    pub steps :
        (r : ℕ) (k : String)
        → f.rev ≡ r + 1
        → history f.rev k ≡ apply_patch (patch_of f) (history r) k

  -- What can arrive: a frame, or the document that a resync asked for (`none` if the read failed).
  pub data Arrival (me : String) : Type 0 where
    frame : (f : PatchFrame V) → IsStep me f → Arrival me
    document : (doc : Dict V) (rev : ℕ) → ((k : String) → lookup k doc ≡ history rev k) → Arrival me
    no_document : Arrival me

  -- The state, and whether a refused record has torn the store since the last re-read.
  abbrev pub Client : Type 0
  Client = State tl × Bool

  unfoldable pub after_frame : Bool → State tl × FrameResult → Client
  after_frame is_torn (s, broken) = (s, true)
  after_frame is_torn (s, _) = (s, is_torn)

  unfoldable pub arrive : {me : String} → Arrival me → Client → Client
  arrive (frame f _) (s, is_torn) = after_frame is_torn (on_frame tl f s)
  arrive (document doc rev _) (s, is_torn) =
      (resync_done tl (some (doc, rev)) s, not (is_some (load s.store doc)))
  arrive no_document (s, is_torn) = (resync_done tl none s, is_torn)

  unfoldable pub run : {me : String} → List (Arrival me) → Client → Client
  run [] c = c
  run (a ∷ events) c = run events (arrive a c)

  -- The client that the arrivals are for, and that agrees with the history if it is not torn.
  pub record IsFaithful (me : String) (c : Client) : Type 0 where
    pub identity : c.0.client_id ≡ me
    pub agrees : c.1 ≡ false → Agrees c.0

  Agrees-skip :
      (f : PatchFrame V) (s : State tl)
      → f.rev ≤ s.applied_rev
      → Agrees s
      → Agrees (advance tl skip f s)
  unfolding advance next_rev
  Agrees-skip f s old h k =
      let same : max s.applied_rev f.rev ≡ s.applied_rev = omega arith in rw same (h k)

  Agrees-apply :
      {me : String} (f : PatchFrame V) (s : State tl) (t : Store)
      → IsStep me f
      → f.rev ≡ s.applied_rev + 1
      → merge_frame tl f s.store ≡ some t
      → Agrees s
      → Agrees (advance tl apply f (record s { store = t }))
  unfolding advance next_rev
  Agrees-apply f s t step new merged h k =
      let same : max s.applied_rev f.rev ≡ f.rev = omega arith in
      rw same (
        merge_frame-get f s.store t k merged
        ∙ ap (λ (d : Doc V). apply_patch (patch_of f) d k) (fun_ext h)
        ∙ sym (step.steps s.applied_rev k new))

  module _ (me : String) (f : PatchFrame V) (s : State tl) (is_torn : Bool)
      (step : IsStep me f) where
    Acts : FrameAction → Type 0
    Acts a = IsFaithful me (after_frame is_torn (on_action tl a f s))

    skip-Acts : f.rev ≤ s.applied_rev → IsFaithful me (s, is_torn) → Acts skip
    unfolding Acts on_action after_frame
    skip-Acts old h = record {
      identity = unfold advance in h.identity;
      agrees = λ whole. Agrees-skip f s old (h.agrees whole);
    }

    resync-Acts : IsFaithful me (s, is_torn) → Acts resync
    unfolding Acts on_action after_frame
    resync-Acts h = h

    apply-Acts : f.rev ≡ s.applied_rev + 1 → IsFaithful me (s, is_torn) → Acts apply
    unfolding Acts on_action
    apply-Acts new h = elim (Option-cases (merge_frame tl f s.store)) [
      | inl refused ↦
          rw (refused, on_action)
            (unfold after_frame in record { identity = h.identity; agrees = λ e. cc })
      | inr (t, merged) ↦
          rw (merged, on_action)
            (unfold after_frame in
              record {
                identity = unfold advance in h.identity;
                agrees = λ whole. Agrees-apply f s t step new merged (h.agrees whole);
              })
    ]

    on_frame-IsFaithful :
        IsFaithful me (s, is_torn) → IsFaithful me (after_frame is_torn (on_frame tl f s))
    unfolding on_frame Acts
    on_frame-IsFaithful h =
        let other : f.client_id ≢ s.client_id = λ e. step.other (e ∙ h.identity) in
        elim (classify_frame_other f s.applied_rev s.client_id other) [
          | inl (e, old) ↦ rw e (skip-Acts old h)
          | inr rest ↦ elim rest [
            | inl e ↦ rw e (resync-Acts h)
            | inr (e, new) ↦ rw e (apply-Acts new h)
          ]
        ]

  document-IsFaithful :
      {me : String} (doc : Dict V) (rev : ℕ) (s : State tl) (is_torn : Bool)
      → ((k : String) → lookup k doc ≡ history rev k)
      → IsFaithful me (s, is_torn)
      → IsFaithful me (resync_done tl (some (doc, rev)) s, not (is_some (load s.store doc)))
  unfolding resync_done
  document-IsFaithful doc rev s is_torn same h = elim (Option-cases (load s.store doc)) [
    | inl refused ↦
        rw (refused, resync_done)
          (unfold resync_done in record { identity = h.identity; agrees = λ e. cc })
    | inr (t, loaded) ↦
        rw (loaded, resync_done)
          (unfold resync_done in
            record {
              identity = h.identity;
              agrees = λ _ k. tl.get-load s.store t doc k loaded ∙ same k;
            })
  ]

  arrive-IsFaithful :
      {me : String} (a : Arrival me) (c : Client) → IsFaithful me c → IsFaithful me (arrive a c)
  unfolding arrive
  arrive-IsFaithful (frame f step) (s, is_torn) h = on_frame-IsFaithful _ f s is_torn step h
  arrive-IsFaithful (document doc rev same) (s, is_torn) h =
      document-IsFaithful doc rev s is_torn same h
  arrive-IsFaithful no_document (s, is_torn) h =
      unfold resync_done in record { identity = h.identity; agrees = h.agrees }

  run-IsFaithful :
      {me : String} (events : List (Arrival me)) (c : Client)
      → IsFaithful me c
      → IsFaithful me (run events c)
  unfolding run
  run-IsFaithful [] c h = h
  run-IsFaithful (a ∷ events) c h = run-IsFaithful events (arrive a c) (arrive-IsFaithful a c h)

  -- A client that sends nothing, whatever frames arrive, late, twice, out of order or not at all,
  -- shows the document of the revision it holds, as long as no record that the store refused has
  -- torn it since the last document it loaded.
  pub run-Agrees :
      {me : String} (events : List (Arrival me)) (c : Client)
      → IsFaithful me c
      → (run events c).1 ≡ false
      → Agrees (run events c).0
  run-Agrees events c h whole = (run-IsFaithful events c h).agrees whole
