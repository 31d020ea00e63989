-- ===== src/Wiki/Links/Lost.antt =====
-- The race of the autosave and the upload of web/src/wiki/WikiApp.tsx.
use fusion_on_prem_server.Base.{
  [], ℕ, String, ◌≡◌, refl, ap, sym, Bool, true, false, not, none, some, List, ◌∷◌, filter,
  map_option, find, get_elem?, str_eq, eq_refl, Bool-cases, inl, inr, arith,
}
use fusion_on_prem_server.Base.Sort.{insert_by}
use fusion_on_prem_server.Base.Text.{is_empty_text}
use fusion_on_prem_server.Wiki.Drafts.{
  WikiDraft, DraftsState, get_draft, delete_draft, put_draft, reload, save,
}
use fusion_on_prem_server.Wiki.Session.{PublishJob, PublishedPage, WikiState, is_linked}
use fusion_on_prem_server.Wiki.Editor.{on_timer, on_published, linked_to}

module _ {A : Type 0} (le : A → A → Bool) (test : A → Bool) where
  find-filter : (xs : List A) → find test (filter (λ a. not (test a)) xs) ≡ none
  find-filter [] = refl
  find-filter (y ∷ xs) = ground (arith, find-filter xs)

  found :
      (x : A) (xs : List A)
      → test x ≡ true
      → find test xs ≡ none
      → find test (insert_by le x xs) ≡ some x
  unfolding insert_by
  found x [] h absent = rw h refl
  found x (y ∷ xs) h absent = ground (arith, found x xs h)

module _ (key_before : String → String → Bool) where
  -- What was put under a key is what is found there.
  pub get_draft-put_draft :
      (d : WikiDraft) (rows : List WikiDraft)
      → get_draft d.key (put_draft key_before d rows) ≡ some d
  unfolding put_draft
  get_draft-put_draft d rows =
      let here = λ (e : WikiDraft). str_eq e.key d.key in
      found (λ (a b : WikiDraft). key_before a.key b.key) here d (delete_draft d.key rows)
        (eq_refl d.key) (find-filter (λ (a b : WikiDraft). key_before a.key b.key) here rows)

  stored-save :
      (project_id : String) (d : WikiDraft) (s : DraftsState)
      → (save key_before project_id d s).stored ≡ put_draft key_before d s.stored
  unfolding save reload
  stored-save project_id d s = elim (Bool-cases (is_empty_text project_id)) [
    | inl e ↦ rw e refl
    | inr e ↦ rw e refl
  ]

module _ (key_before : String → String → Bool) (project_id : String) (can_write : Bool)
    (untitled_page : String) where
  found_links :
      (key : String) (d : WikiDraft) (s : DraftsState) (b : Bool)
      → d.key ≡ key
      → is_linked d ≡ b
      → map_option is_linked (get_draft key (save key_before project_id d s).stored) ≡ some b
  found_links key d s b same link =
      rw
        (sym same, stored-save key_before project_id d s, get_draft-put_draft key_before d s.stored)
        (ap some link)

  -- Where the timer of the autosave keeps a draft that is not linked, and a draft of the same key
  -- is being uploaded, the answer links the stored draft to its page, where it names one, and the
  -- timer, when it fires after it, unlinks it again.
  pub on_timer-on_published :
      (w : WikiState) (i : ℕ) (u : PublishJob) (page : PublishedPage) (d : WikiDraft)
      (now later : ℕ)
      → get_elem? w.uploads i ≡ some u
      → w.timer ≡ some d
      → u.base.key ≡ d.key
      → is_linked d ≡ false
      → is_empty_text page.item_id ≡ false
      → (let answered = on_published key_before project_id can_write untitled_page i page now w in
          let fired = on_timer key_before project_id can_write untitled_page later answered in
          (map_option is_linked (get_draft d.key answered.local.stored) ≡ some true)
          × (map_option is_linked (get_draft d.key fired.local.stored) ≡ some false))
  unfolding on_timer on_published
  on_timer-on_published w i u page d now later sent running same new given =
      let linked = linked_to key_before project_id can_write untitled_page u page now in
      rw (sent, running)
        (
          found_links d.key linked w.local true same (rw given refl),
          found_links d.key (record d { updated_at = later })
              (save key_before project_id linked w.local) false refl new,
        )
