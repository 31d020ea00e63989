-- ===== src/Pins/Toggle.antt =====
-- What a toggle of web/src/state/pins.ts does to the list of pins.
use mathlib.Core.Path.{subst}
use fusion_on_prem_server.Base.{
  String, ◌≡◌, refl, sym, ◌∙◌, Bool, true, false, not, ◌&&◌, none, some, List, [], ◌∷◌, any, all,
  is_some, str_eq, eq_refl, eq_iff, Bool-cases, inl, inr, if◌then◌else◌, arith,
}
use fusion_on_prem_server.Base.Text.{is_empty_text, strip_prefix}
use fusion_on_prem_server.Nav.State.{Item, NavState}
use fusion_on_prem_server.Pins.{
  Pin, pinnable, is_pinnable, LocalKind, whiteboard, task, job, batch, channel, LocalPinTarget, add,
  remove, is_pinned, has_hub, pin_of, toggle, local_pin, kind_text, toggle_local,
}
use fusion_on_prem_server.Pins.Server.{
  is_local_kind, is_pinnable_kind, validate, add_pin, remove_pin, answer, settled,
}

-- The new list flips whether `id` is pinned, and leaves every other id.
abbrev pub Flips : List Pin → List Pin → String → Type 0
Flips pins' pins id =
    (is_pinned (some pins') id ≡ not (is_pinned (some pins) id))
    × ((j : String) → str_eq id j ≡ false → is_pinned (some pins') j ≡ is_pinned (some pins) j)

-- What holds of every kind of a list holds of one that is in it.
of_all :
    (p : String → Bool) (kind : String) (ks : List String)
    → all p ks ≡ true
    → any (λ k. str_eq k kind) ks ≡ true
    → p kind ≡ true
of_all p kind [] h here = ground arith
of_all p kind (k ∷ ks) h here = elim (Bool-cases (str_eq k kind)) [
  | inl e ↦ subst (λ c. p c ≡ true) ((eq_iff k kind).0 e) (ground arith)
  | inr e ↦ of_all p kind ks (ground arith) (ground arith)
]

-- The kinds that the client pins are kinds of items to the server.
item_kind :
    (kind : String)
    → is_pinnable kind ≡ true
    → (is_pinnable_kind kind && not (is_local_kind kind)) ≡ true
unfolding is_pinnable is_pinnable_kind is_local_kind
item_kind kind h = of_all (λ k. is_pinnable_kind k && not (is_local_kind k)) kind pinnable refl h

is_pinned-remove_pin :
    (i : String) (pins : List Pin) (j : String)
    → is_pinned (some (remove_pin pins i)) j
      ≡ (if str_eq i j then false else is_pinned (some pins) j)
unfolding remove_pin
is_pinned-remove_pin i [] j = ground arith
is_pinned-remove_pin i (p ∷ pins) j =
    ground (arith, eq_iff p.id i, eq_iff p.id j, eq_iff i j, is_pinned-remove_pin i pins j)

removes :
    (pins : List Pin) (id : String)
    → is_empty_text id ≡ false
    → is_pinned (some pins) id ≡ true
    → Flips (settled (some (remove id)) pins) pins id
unfolding settled answer
removes pins id given there = rw given (
  is_pinned-remove_pin id pins id ∙ rw (eq_refl id, there) refl,
  λ j other. is_pinned-remove_pin id pins j ∙ rw other refl,
)

adds :
    (pins : List Pin) (pin : Pin)
    → validate pin ≡ none
    → is_pinned (some pins) pin.id ≡ false
    → Flips (settled (some (add pin)) pins) pins pin.id
unfolding settled answer add_pin
adds pins pin valid absent = rw (valid, absent) (rw (eq_refl pin.id) refl, λ j other. rw other refl)

valid_item :
    (nav : NavState) (item : Item)
    → is_pinnable item.kind ≡ true
    → is_empty_text item.id ≡ false
    → validate (pin_of nav item) ≡ none
unfolding validate
valid_item nav item can given =
    let kinds = item_kind item.kind can in
    let fits : is_pinnable_kind item.kind ≡ true = ground arith in
    let remote : is_local_kind item.kind ≡ false = ground arith in rw (given, fits, remote) refl

-- In a hub, where the cached list is the server's, a toggle of an item with an id, of a kind that
-- can be pinned, is not refused by the server: afterwards the item is pinned just if it was not,
-- and every other pin is as it was.
pub toggle-Flips :
    (nav : NavState) (item : Item) (pins : List Pin)
    → has_hub nav ≡ true
    → is_pinnable item.kind ≡ true
    → is_empty_text item.id ≡ false
    → Flips (settled (toggle nav (some pins) item) pins) pins item.id
unfolding toggle
toggle-Flips nav item pins hub can given = elim (Bool-cases (is_pinned (some pins) item.id)) [
  | inl there ↦
      let sent : toggle nav (some pins) item ≡ some (remove item.id) = rw (hub, can, there) refl in
      subst (λ r. Flips (settled r pins) pins item.id) (sym sent) (removes pins item.id given there)
  | inr absent ↦
      let sent : toggle nav (some pins) item ≡ some (add (pin_of nav item)) =
        rw (hub, can, absent) refl in
      subst (λ r. Flips (settled r pins) pins item.id) (sym sent)
        (adds pins (pin_of nav item) (valid_item nav item can given) absent)
]

local_kind :
    (kind : LocalKind)
    → (is_local_kind (kind_text kind) && is_pinnable_kind (kind_text kind)) ≡ true
unfolding is_local_kind is_pinnable_kind
local_kind whiteboard = refl
local_kind task = refl
local_kind job = refl
local_kind batch = refl
local_kind channel = refl

valid_local :
    (target : LocalPinTarget)
    → is_empty_text target.ref ≡ false
    → is_empty_text target.project_id ≡ false
    → is_some (strip_prefix "fls:" target.ref) ≡ true
    → validate (local_pin target) ≡ none
unfolding validate
valid_local target given project token =
    let kinds = local_kind target.kind in
    let fits : is_pinnable_kind (kind_text target.kind) ≡ true = ground arith in
    let local : is_local_kind (kind_text target.kind) ≡ true = ground arith in
    rw (given, fits, local, project, token, eq_refl target.ref) refl

-- So does a toggle of a board, a task, a job, a batch or a channel, by its token.
pub toggle_local-Flips :
    (nav : NavState) (target : LocalPinTarget) (pins : List Pin)
    → has_hub nav ≡ true
    → is_empty_text target.ref ≡ false
    → is_empty_text target.project_id ≡ false
    → is_some (strip_prefix "fls:" target.ref) ≡ true
    → Flips (settled (toggle_local nav (some pins) target) pins) pins target.ref
unfolding toggle_local
toggle_local-Flips nav target pins hub given project token =
    elim (Bool-cases (is_pinned (some pins) target.ref)) [
      | inl there ↦
          let sent : toggle_local nav (some pins) target ≡ some (remove target.ref) =
            rw (hub, given, project, there) refl in
          subst (λ r. Flips (settled r pins) pins target.ref) (sym sent)
            (removes pins target.ref given there)
      | inr absent ↦
          let sent : toggle_local nav (some pins) target ≡ some (add (local_pin target)) =
            rw (hub, given, project, absent) refl in
          subst (λ r. Flips (settled r pins) pins target.ref) (sym sent)
            (adds pins (local_pin target) (valid_local target given project token) absent)
    ]
