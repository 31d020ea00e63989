-- ===== src/Chat/Cache/Counters.antt =====
-- `bumpRootCounters` of web/src/chat/cache.ts.
use Prim.Native.Nat.{Ordering}
use Prim.Native.String.{compare}
use text.Mathlib.TextPositions.{compare_refl}
use fusion_on_prem_server.Base.{
  ◌+◌, String, ◌≡◌, ◌≢◌, refl, ◌⊎◌, inl, inr, false, none, some, str_eq, eq_iff, arith, Bool-cases,
}
use fusion_on_prem_server.Base.Int.{eq_ℤ, eq_ℤ_refl, eq_ℤ_iff}
use fusion_on_prem_server.Chat.Types.{ChatMessage}
use fusion_on_prem_server.Chat.Cache.{Delta, up, down, bump_root}

-- The root has no reply yet, or its last one is before this one. (The order of texts has no law that
-- turns a comparison round, so both are asked for.)
abbrev pub IsLater : ChatMessage → ChatMessage → Type 0
IsLater reply root =
    (root.last_reply_at ≡ none)
    ⊎ ((at : String) × (root.last_reply_at ≡ some at)
        × (compare at reply.created_at ≡ Ordering.lt)
        × (compare reply.created_at at ≡ Ordering.gt))

given_text : (s : String) → s ≢ "" → str_eq s "" ≡ false
given_text s h = ground (arith, eq_iff s "")

-- A root that was counted up at the time of the reply.
abbrev counted_up : ChatMessage → ChatMessage → ChatMessage
counted_up reply root = record root {
  reply_count = root.reply_count + 1;
  last_reply_at = some reply.created_at;
}

bump_up :
    (reply root : ChatMessage)
    → reply.thread_root ≡ some root.seq
    → IsLater reply root
    → bump_root up reply root ≡ counted_up reply root
unfolding bump_root
bump_up reply root of (inl first) = rw (of, eq_ℤ_refl root.seq, first) refl
bump_up reply root of (inr (at, last, lt, gt)) =
    rw (of, eq_ℤ_refl root.seq, last) (ground (arith, lt, gt))

bump_again :
    (reply root : ChatMessage)
    → reply.thread_root ≡ some root.seq
    → reply.created_at ≢ ""
    → bump_root up reply (counted_up reply root) ≡ counted_up reply root
unfolding bump_root
bump_again reply root of dated =
    rw (of, eq_ℤ_refl root.seq)
      (ground (arith, given_text reply.created_at dated, compare_refl reply.created_at))

bump_down :
    (reply root : ChatMessage)
    → reply.thread_root ≡ some root.seq
    → (bump_root down reply (counted_up reply root)).reply_count ≡ root.reply_count
unfolding bump_root
bump_down reply root of = rw (of, eq_ℤ_refl root.seq) (omega arith)

bump_other :
    (delta : Delta) (reply root other : ChatMessage)
    → reply.thread_root ≡ some root.seq
    → other.seq ≢ root.seq
    → bump_root delta reply other ≡ other
unfolding bump_root
bump_other delta reply root other of apart = elim (Bool-cases (eq_ℤ other.seq root.seq)) [
  | inl same ↦ absurd (apart ((eq_ℤ_iff other.seq root.seq).0 same))
  | inr e ↦ rw (of, e) refl
]

-- A reply with a time, to a root that has no reply as late, is counted once however often it
-- arrives, the root then has its time as the last one, and its deletion uncounts it; no other
-- message changes.
pub bump_root_once :
    (reply root other : ChatMessage)
    → reply.thread_root ≡ some root.seq
    → reply.created_at ≢ ""
    → IsLater reply root
    → other.seq ≢ root.seq
    → ((bump_root up reply root).reply_count ≡ root.reply_count + 1)
      × ((bump_root up reply root).last_reply_at ≡ some reply.created_at)
      × (bump_root up reply (bump_root up reply root) ≡ bump_root up reply root)
      × ((bump_root down reply (bump_root up reply root)).reply_count ≡ root.reply_count)
      × ((delta : Delta) → bump_root delta reply other ≡ other)
bump_root_once reply root other of dated later apart = rw (bump_up reply root of later) (
  refl,
  refl,
  bump_again reply root of dated,
  bump_down reply root of,
  λ delta. bump_other delta reply root other of apart,
)
