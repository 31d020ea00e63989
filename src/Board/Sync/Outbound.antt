-- ===== src/Board/Sync/Outbound.antt =====
-- The outbound half of web/src/whiteboards/useBoardSync.ts: the edits of the user, the requests that
-- carry them, and the answers of the server, between two resyncs.
use mathlib.Core.List.{append-nil, append_assoc}
use fusion_on_prem_server.Base.{
  ℕ, ◌≡◌, refl, sym, ap, ◌∙◌, ◌⊎◌, true, false, Option, none, some, inl, inr, List, [], ◌∷◌, ◌++◌,
  arith, ◌&&◌, ◌||◌, not, is_some, Bool-cases, leb, ◌-◌,
}
use fusion_on_prem_server.Board.Protocol.{
  WirePatch, RecordsDiff, no_entries, is_empty_patch, diff_to_patch, squash,
}
use fusion_on_prem_server.Board.Protocol.Effect.{Same, Same-append, Same-squash, Same-empty}
use fusion_on_prem_server.Board.Protocol.Diff.{apply_all}
use fusion_on_prem_server.Board.Store.{TlStore}
use fusion_on_prem_server.Board.Sync.{
  State, PatchRequest, Answer, accepted, failed, patches_in_flight, send, enqueue, schedule, listen,
  answered, patch_max_wait_ms,
}

module _ {V : Type 0} (tl : TlStore V) where
  -- The edits that the server has not confirmed, oldest first.
  abbrev pub outstanding : State tl → List (WirePatch V)
  outstanding s = patches_in_flight tl s ++ s.queue

  -- A send moves the queue, or drops it where it has no effect.
  send-outstanding_cases :
      (s : State tl)
      → (outstanding (send tl s).0 ≡ outstanding s)
        ⊎ ((is_empty_patch (squash s.queue) ≡ true)
            × (outstanding (send tl s).0 ≡ [])
            × (outstanding s ≡ s.queue))
  unfolding send
  send-outstanding_cases s = ground (arith, append-nil s.queue)

  send-Same : (s : State tl) → Same (outstanding (send tl s).0) (outstanding s)
  send-Same s doc k = elim (send-outstanding_cases s) [
    | inl same ↦ rw same
    | inr (e, gone, queued) ↦
        rw (gone, queued) (sym (Same-empty (squash s.queue) e doc k) ∙ Same-squash s.queue doc k)
  ]

  schedule-Same :
      (now : ℕ) (s : State tl) → Same (outstanding (schedule tl now s).0) (outstanding s)
  unfolding schedule
  schedule-Same now s doc k = elim (Bool-cases (leb patch_max_wait_ms (now - s.first_queued_at))) [
    | inl due ↦ rw due (send-Same (record s { timer = none }) doc k)
    | inr early ↦ rw early
  ]

  enqueue-outstanding :
      (now : ℕ) (p : WirePatch V) (s : State tl)
      → outstanding (enqueue tl now p s) ≡ outstanding s ++ p ∷ []
  unfolding enqueue
  enqueue-outstanding now p s = sym (append_assoc (patches_in_flight tl s) s.queue (p ∷ []))

  listen-Same :
      (now : ℕ) (d : RecordsDiff V) (s : State tl)
      → s.applying ≡ false
      → Same (outstanding (listen tl now d s).0) (outstanding s ++ diff_to_patch d ∷ [])
  unfolding listen
  listen-Same now d s idle doc k = elim (Bool-cases (is_empty_patch (diff_to_patch d))) [
    | inl e ↦
        let drops : (s.applying || is_empty_patch (diff_to_patch d)) ≡ true = rw (idle, e) in
        rw drops (
          ap (λ l. apply_all l doc k) (sym (append-nil (outstanding s)))
          ∙ Same-append (outstanding s) (outstanding s) [] (diff_to_patch d ∷ []) (λ _ _. refl)
              (λ c j. sym (Same-empty (diff_to_patch d) e c j)) doc k)
    | inr e ↦
        let queues : (s.applying || is_empty_patch (diff_to_patch d)) ≡ false = rw (idle, e) in
        rw queues (
          schedule-Same now (enqueue tl now (diff_to_patch d) s) doc k
          ∙ ap (λ l. apply_all l doc k) (enqueue-outstanding now (diff_to_patch d) s))
  ]

  -- Nothing but the hook's own writes sets `applying`, and only while they last.
  listen-idle :
      (now : ℕ) (d : RecordsDiff V) (s : State tl)
      → s.applying ≡ false
      → (listen tl now d s).0.applying ≡ false
  unfolding listen schedule send enqueue
  listen-idle now d s idle = ground arith

  -- What happens to a client between two resyncs: the user edits, the timer fires, the server
  -- answers.
  pub data Event : Type 0 where
    edit : ℕ → RecordsDiff V → Event
    fire : Event
    answer : ℕ → Answer → Event

  -- The client, with the request that the server has not answered, the bodies of those that it
  -- accepted, and the patches that the edits make.
  pub record Session : Type 0 where
    pub client : State tl
    pub request : Option (PatchRequest V)
    pub confirmed : List (WirePatch V)
    pub edits : List (WirePatch V)

  -- The body of a request.
  abbrev pub bodies : Option (PatchRequest V) → List (WirePatch V)
  bodies none = []
  bodies (some q) = record { put = q.put; remove = q.remove } ∷ []

  -- A request that goes out is under way; without one, the one before still is.
  abbrev pub under_way : Option (PatchRequest V) → Option (PatchRequest V) → Option (PatchRequest V)
  under_way none before = before
  under_way (some q) before = some q

  -- The server takes the body that it was sent.
  abbrev pub confirm : Answer → Option (PatchRequest V) → List (WirePatch V)
  confirm (accepted rev rejected) request = bodies request
  confirm failed request = []

  pub step : Event → Session → Session
  step (edit now changes) r =
      let (client, sent) = listen tl now changes r.client in
      record r {
        client = client;
        request = under_way sent r.request;
        edits = r.edits ++ diff_to_patch changes ∷ [];
      }
  step fire r =
      let (client, sent) = send tl r.client in
      record r { client = client; request = under_way sent r.request }
  step (answer now a) r = record r {
    client = answered tl now a r.client;
    request = none;
    confirmed = r.confirmed ++ confirm a r.request;
  }

  pub run : List Event → Session → Session
  run [] r = r
  run (e ∷ events) r = run events (step e r)

  -- No edit waits for ever: a queue has a timer, or a request whose answer will set one.
  abbrev pub IsWaited : State tl → Type 0
  IsWaited s =
      not (no_entries s.queue) && not (is_some s.timer) && not (is_some s.in_flight) ≡ false

  pub record IsSound (r : Session) : Type 0 where
    pub idle : r.client.applying ≡ false
    pub waited : IsWaited r.client
    pub carried : Same (bodies r.request) (patches_in_flight tl r.client)
    pub kept : Same (r.confirmed ++ outstanding r.client) r.edits

  send-IsWaited : (s : State tl) → IsWaited (send tl s).0
  unfolding send
  send-IsWaited s = ground arith

  schedule-IsWaited : (now : ℕ) (s : State tl) → IsWaited (schedule tl now s).0
  unfolding schedule
  schedule-IsWaited now s = ground (arith, send-IsWaited (record s { timer = none }))

  listen-IsWaited :
      (now : ℕ) (d : RecordsDiff V) (s : State tl) → IsWaited s → IsWaited (listen tl now d s).0
  unfolding listen
  listen-IsWaited now d s h = elim (Bool-cases (s.applying || is_empty_patch (diff_to_patch d))) [
    | inl drops ↦ rw drops h
    | inr queues ↦ rw queues (schedule-IsWaited now (enqueue tl now (diff_to_patch d) s))
  ]

  answered-IsWaited : (now : ℕ) (a : Answer) (s : State tl) → IsWaited (answered tl now a s)
  unfolding answered
  answered-IsWaited now (accepted rev rejected) s = ground arith
  answered-IsWaited now failed s = ground arith

  -- The request that a send makes carries the queue that it takes.
  abbrev IsCarried : State tl × Option (PatchRequest V) → Option (PatchRequest V) → Type 0
  IsCarried sent before = Same (bodies (under_way sent.1 before)) (patches_in_flight tl sent.0)

  send-IsCarried :
      (s : State tl) (before : Option (PatchRequest V))
      → Same (bodies before) (patches_in_flight tl s)
      → IsCarried (send tl s) before
  unfolding send
  send-IsCarried s before h = elim (Bool-cases (is_some s.in_flight || no_entries s.queue)) [
    | inl rests ↦ rw rests h
    | inr goes ↦ elim (Bool-cases (is_empty_patch (squash s.queue))) [
      | inl e ↦ rw (goes, e) h
      | inr full ↦ rw (goes, full) (Same-squash s.queue)
    ]
  ]

  schedule-IsCarried :
      (now : ℕ) (s : State tl) (before : Option (PatchRequest V))
      → Same (bodies before) (patches_in_flight tl s)
      → IsCarried (schedule tl now s) before
  unfolding schedule
  schedule-IsCarried now s before h =
      elim (Bool-cases (leb patch_max_wait_ms (now - s.first_queued_at))) [
        | inl due ↦ rw due (send-IsCarried (record s { timer = none }) before h)
        | inr early ↦ rw early h
      ]

  listen-IsCarried :
      (now : ℕ) (d : RecordsDiff V) (s : State tl) (before : Option (PatchRequest V))
      → Same (bodies before) (patches_in_flight tl s)
      → IsCarried (listen tl now d s) before
  unfolding listen enqueue
  listen-IsCarried now d s before h =
      elim (Bool-cases (s.applying || is_empty_patch (diff_to_patch d))) [
        | inl drops ↦ rw drops h
        | inr queues ↦
            rw queues (schedule-IsCarried now (enqueue tl now (diff_to_patch d) s) before h)
      ]

  answered-IsCarried :
      (now : ℕ) (a : Answer) (s : State tl) → Same [] (patches_in_flight tl (answered tl now a s))
  unfolding answered
  answered-IsCarried now (accepted rev rejected) s doc k = refl
  answered-IsCarried now failed s doc k = refl

  Same-extend :
      (ps qs : List (WirePatch V)) (rs es : List (WirePatch V)) (p : WirePatch V)
      → Same qs (rs ++ p ∷ [])
      → Same (ps ++ rs) es
      → Same (ps ++ qs) (es ++ p ∷ [])
  Same-extend ps qs rs es p h kept doc k =
      Same-append ps ps qs (rs ++ p ∷ []) (λ _ _. refl) h doc k
      ∙ ap (λ l. apply_all l doc k) (sym (append_assoc ps rs (p ∷ [])))
      ∙ Same-append (ps ++ rs) es (p ∷ []) (p ∷ []) kept (λ _ _. refl) doc k

  edit-IsSound :
      (now : ℕ) (d : RecordsDiff V) (r : Session) → IsSound r → IsSound (step (edit now d) r)
  unfolding step
  edit-IsSound now d r h = record {
    idle = listen-idle now d r.client h.idle;
    waited = listen-IsWaited now d r.client h.waited;
    carried = listen-IsCarried now d r.client r.request h.carried;
    kept =
        Same-extend r.confirmed _ (outstanding r.client) r.edits (diff_to_patch d)
          (listen-Same now d r.client h.idle) h.kept;
  }

  send-idle : (s : State tl) → s.applying ≡ false → (send tl s).0.applying ≡ false
  unfolding send
  send-idle s idle = ground arith

  fire-IsSound : (r : Session) → IsSound r → IsSound (step fire r)
  unfolding step
  fire-IsSound r h = record {
    idle = send-idle r.client h.idle;
    waited = send-IsWaited r.client;
    carried = send-IsCarried r.client r.request h.carried;
    kept = λ doc k.
        Same-append r.confirmed r.confirmed _ (outstanding r.client) (λ _ _. refl)
          (send-Same r.client) doc k
        ∙ h.kept doc k;
  }

  answered-idle :
      (now : ℕ) (a : Answer) (s : State tl)
      → s.applying ≡ false
      → (answered tl now a s).applying ≡ false
  unfolding answered
  answered-idle now (accepted rev rejected) s idle = idle
  answered-idle now failed s idle = idle

  answer-kept :
      (now : ℕ) (a : Answer) (r : Session)
      → Same (bodies r.request) (patches_in_flight tl r.client)
      → Same (r.confirmed ++ outstanding r.client) r.edits
      → Same
          ((r.confirmed ++ confirm a r.request) ++ outstanding (answered tl now a r.client))
          r.edits
  unfolding answered
  answer-kept now (accepted rev rejected) r carried h doc k =
      ap (λ l. apply_all l doc k) (append_assoc r.confirmed (bodies r.request) r.client.queue)
      ∙ Same-append r.confirmed r.confirmed (bodies r.request ++ r.client.queue)
          (outstanding r.client) (λ _ _. refl)
          (Same-append (bodies r.request) (patches_in_flight tl r.client) r.client.queue
            r.client.queue carried (λ _ _. refl))
          doc k
      ∙ h doc k
  answer-kept now failed r carried h doc k =
      ap (λ l. apply_all (l ++ outstanding r.client) doc k) (append-nil r.confirmed) ∙ h doc k

  answer-IsSound :
      (now : ℕ) (a : Answer) (r : Session) → IsSound r → IsSound (step (answer now a) r)
  unfolding step
  answer-IsSound now a r h = record {
    idle = answered-idle now a r.client h.idle;
    waited = answered-IsWaited now a r.client;
    carried = answered-IsCarried now a r.client;
    kept = answer-kept now a r h.carried h.kept;
  }

  step-IsSound : (e : Event) (r : Session) → IsSound r → IsSound (step e r)
  step-IsSound (edit now d) r h = edit-IsSound now d r h
  step-IsSound fire r h = fire-IsSound r h
  step-IsSound (answer now a) r h = answer-IsSound now a r h

  -- Between resyncs, whatever the user does and however the server answers, the bodies of the
  -- requests that it accepted, with the patches still in flight or queued behind them, do to every
  -- document what the edits do in order; the body of the request under way does what the patches in
  -- flight do; and a queue that is not empty has a timer or a request under way. This is so from
  -- any state in which it is so and no write of the hook is under way.
  pub run-IsSound : (events : List Event) (r : Session) → IsSound r → IsSound (run events r)
  unfolding run
  run-IsSound [] r h = h
  run-IsSound (e ∷ events) r h = run-IsSound events (step e r) (step-IsSound e r h)
