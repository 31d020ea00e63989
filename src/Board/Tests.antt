-- ===== src/Board/Tests.antt =====
-- Runs of the modelled code of web/src/whiteboards, and each theorem at an input of its own.
use mathlib.Core.Option.{some-injective}
use fusion_on_prem_server.Base.{
  ℕ, zero, suc, ◌+◌, ◌<◌, String, ◌≡◌, ◌↔◌, refl, sym, ap, false, none, some, List, [], ◌∷◌, arith,
  if◌then◌else◌, str_eq, eq_iff,
}
use fusion_on_prem_server.Base.Dict.{lookup, elem}
use fusion_on_prem_server.Board.Protocol.{
  WirePatch, RecordsDiff, PatchFrame, diff_to_patch, squash, squash_from, squash_puts,
  squash_removes, classify_frame, resync, next_rev,
}
use fusion_on_prem_server.Board.Protocol.Diff.{
  Doc, put_all, apply_patch, apply_all, apply_patch-diff_to_patch,
}
use fusion_on_prem_server.Board.Protocol.Squash.{apply_patch-squash}
use fusion_on_prem_server.Board.Protocol.Frames.{resync_iff}
use fusion_on_prem_server.Board.Store.{TlStore}
use fusion_on_prem_server.Board.Sync.{
  State, live, accepted, failed, handled, answered, on_frame, on_action, advance, merge_frame,
  put_records,
}
use fusion_on_prem_server.Board.Sync.Inbound
use fusion_on_prem_server.Board.Sync.Inbound.{
  Agrees, Arrival, IsStep, IsFaithful, Client, run-Agrees,
}
use fusion_on_prem_server.Board.Sync.CatchUp.{on_frames, applied_rev-on_frames}
use fusion_on_prem_server.Board.Sync.Outbound
use fusion_on_prem_server.Board.Sync.Outbound.{Session, Event, IsSound, run-IsSound}
use fusion_on_prem_server.Board.Sync.Confirmed.{on_frame-answered}

-- A store that holds the records as a function and refuses none.
abbrev plain : TlStore ℕ
plain = record {
  Store = Doc ℕ;
  get = λ s k. s k;
  put = λ s m. some (λ k. put_all m s k);
  remove = λ s ids k. if elem k ids then none else s k;
  load = λ s m. some (λ k. lookup k m);
  torn = λ s m. s;
  get-put = λ s t m k e. ap (λ (d : Doc ℕ). d k) (sym (some-injective _ _ e));
  get-remove = λ s ids k. refl;
  get-load = λ s t m k e. ap (λ (d : Doc ℕ). d k) (sym (some-injective _ _ e));
}

abbrev patches : List (WirePatch ℕ)
patches =
    record { put = ("a", 1) ∷ ("b", 2) ∷ []; remove = [] }
    ∷ record { put = ("c", 3) ∷ []; remove = "a" ∷ [] }
    ∷ record { put = ("a", 4) ∷ []; remove = "b" ∷ [] }
    ∷ []

squash_run : squash patches ≡ record { put = ("c", 3) ∷ ("a", 4) ∷ []; remove = "b" ∷ [] }
unfolding squash squash_from squash_puts squash_removes
squash_run = refl

abbrev blank : Doc ℕ
blank k = none

apply_patch-squash_example : apply_patch (squash patches) blank "a" ≡ apply_all patches blank "a"
apply_patch-squash_example = apply_patch-squash patches blank "a"

abbrev change : RecordsDiff ℕ
change = record { added = ("a", 1) ∷ []; updated = []; removed = [] }

abbrev with_a : Doc ℕ
with_a k = if str_eq "a" k then some 1 else none

apply_patch-diff_to_patch_example : apply_patch (diff_to_patch change) blank "a" ≡ with_a "a"
apply_patch-diff_to_patch_example =
    apply_patch-diff_to_patch change blank with_a
      (record {
        added_unique = (refl, tt);
        updated_unique = tt;
        adds = λ k v e. e;
        updates = λ k p e. cc;
        removes = λ k v e. cc;
        keeps = λ k e _ _. e;
      })
      "a"

abbrev first : PatchFrame ℕ
first = record { rev = 1; client_id = "peer"; put = ("a", 1) ∷ []; remove = [] }

resync_iff_example : (classify_frame first 0 "me" ≡ resync) ↔ (0 + 1 < first.rev)
resync_iff_example = resync_iff first 0 "me"

abbrev opened : State plain
opened = record {
  store = blank;
  status = live;
  pending = false;
  client_id = "me";
  applied_rev = 0;
  seq = 0;
  queue = [];
  timer = none;
  first_queued_at = 0;
  in_flight = none;
  applying = false;
}

abbrev history : ℕ → Doc ℕ
history zero = blank
history (suc r) = with_a

first_steps :
    (r : ℕ) (k : String)
    → first.rev ≡ r + 1
    → history first.rev k
      ≡ apply_patch (record { put = first.put; remove = first.remove }) (history r) k
first_steps zero k e = refl
first_steps (suc r) k e = absurd (omega arith)

first-IsStep : IsStep plain history "me" first
first-IsStep = record { other = λ e. cc ((eq_iff "peer" "me").1 e); steps = first_steps }

abbrev arrivals : List (Arrival plain history "me")
arrivals = Arrival.frame first first-IsStep ∷ Arrival.frame first first-IsStep ∷ []

opened-IsFaithful : IsFaithful plain history "me" (opened, false)
opened-IsFaithful = record { identity = refl; agrees = λ _ k. refl }

run-Agrees_example : Agrees plain history (Inbound.run plain history arrivals (opened, false)).0
unfolding Inbound.run Inbound.arrive Inbound.after_frame on_frame on_action advance merge_frame
    put_records classify_frame next_rev
run-Agrees_example = run-Agrees plain history arrivals (opened, false) opened-IsFaithful refl

applied_rev-on_frames_example : (on_frames plain (first ∷ []) opened).applied_rev ≡ 0 + 1
applied_rev-on_frames_example =
    applied_rev-on_frames plain (λ s m. (_, refl)) (first ∷ []) opened (omega arith)

abbrev session : Session plain
session = record { client = opened; request = none; confirmed = []; edits = [] }

session-IsSound : IsSound plain session
session-IsSound = record {
  idle = refl;
  waited = refl;
  carried = λ doc k. refl;
  kept = λ doc k. refl;
}

abbrev events : List (Event plain)
events =
    Event.edit 10 change
    ∷ Event.fire
    ∷ Event.answer 20 failed
    ∷ Event.fire
    ∷ Event.answer 30 (accepted 1 [])
    ∷ []

run-IsSound_example : IsSound plain (Outbound.run plain events session)
run-IsSound_example = run-IsSound plain events session session-IsSound

on_frame-answered_example :
    ((on_frame plain first (answered plain 5 (accepted 2 []) opened)).0.store ≡ blank)
    × ((on_frame plain first (answered plain 5 (accepted 2 []) opened)).1 ≡ handled)
on_frame-answered_example = on_frame-answered plain first opened 5 2 (omega arith) (omega arith)
