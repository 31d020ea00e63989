-- ===== src/Hub/Settings.antt =====
-- What a hub's own setting of web/src/state/hubKeys.ts holds.
use fusion_on_prem_server.Base.{
  String, ◌≡◌, ◌≢◌, refl, ◌∙◌, false, Option, none, some, str_eq, eq_refl, Option-cases, inl, inr,
}
use fusion_on_prem_server.Hub.{
  StorageLike, HubJson, SavedHub, hub_storage_key, hub_slug, hub_scoped_key, load_last_hub,
  save_last_hub, seeded, resolve_hub_scoped_key,
}

-- `own ?? old`
abbrev pub or_old : Option String → Option String → Option String
or_old none old = old
or_old (some v) old = some v

module _ (dom : StorageLike) (json : HubJson) where
  open dom use {Store, get_item, set_item, get_item-set_item}

  -- A hub that is saved, and then loaded, is the hub that was saved, where the storage takes it.
  pub load_last_hub-save_last_hub :
      (s t : Store) (id name : String)
      → set_item s hub_storage_key (json.stringify (record { id = id; name = name })) ≡ some t
      → load_last_hub dom json (save_last_hub dom json id name (some s))
        ≡ some (record { id = id; name = name })
  unfolding load_last_hub save_last_hub
  load_last_hub-save_last_hub s t id name saved =
      rw
        (
          saved,
          get_item-set_item s t hub_storage_key (json.stringify (record { id = id; name = name }))
              hub_storage_key saved,
        )
        (rw (json.stringify_given (record { id = id; name = name }))
          (json.parse-stringify (record { id = id; name = name })))

  -- What a storage that may be missing holds.
  abbrev pub read : Option Store → String → Option (Option String)
  read none j = none
  read (some s) j = get_item s j

  seeded-own :
      (key : String) (s : Store) (own old : Option String)
      → ((v : String) → set_item s key v ≢ none)
      → get_item s key ≡ some own
      → get_item (seeded dom json key s (some own) (some old)) key ≡ some (or_old own old)
  seeded-own key s (some v) old takes h = h
  seeded-own key s none none takes h = h
  seeded-own key s none (some legacy) takes h = elim (Option-cases (set_item s key legacy)) [
    | inl failed ↦ absurd (takes legacy failed)
    | inr (t, saved) ↦ rw saved (get_item-set_item s t key legacy key saved ∙ rw eq_refl refl)
  ]

  seeded-other :
      (key j : String) (s : Store) (own old : Option String)
      → str_eq key j ≡ false
      → get_item (seeded dom json key s (some own) (some old)) j ≡ get_item s j
  seeded-other key j s (some v) old other = refl
  seeded-other key j s none none other = refl
  seeded-other key j s none (some legacy) other = elim (Option-cases (set_item s key legacy)) [
    | inl failed ↦ rw failed refl
    | inr (t, saved) ↦ rw saved (get_item-set_item s t key legacy j saved ∙ rw other refl)
  ]

  -- Once a hub is known, its own key holds the value that was set for the hub, or else the one from
  -- before there were hubs, and no other key changes, in a storage that can be read and takes
  -- writes.
  pub resolve_hub_scoped_key_lem :
      (base : String) (s : Store) (hub : SavedHub) (own old : Option String)
      → load_last_hub dom json (some s) ≡ some hub
      → get_item s (hub_scoped_key base (hub_slug hub.id)) ≡ some own
      → get_item s base ≡ some old
      → ((v : String) → set_item s (hub_scoped_key base (hub_slug hub.id)) v ≢ none)
      → ((resolve_hub_scoped_key dom json base (some s)).0 ≡ hub_scoped_key base (hub_slug hub.id))
        × (read
              (resolve_hub_scoped_key dom json base (some s)).1
              (hub_scoped_key base (hub_slug hub.id))
            ≡ some (or_old own old))
        × ((j : String)
            → str_eq (hub_scoped_key base (hub_slug hub.id)) j ≡ false
            → read (resolve_hub_scoped_key dom json base (some s)).1 j ≡ get_item s j)
  unfolding resolve_hub_scoped_key
  resolve_hub_scoped_key_lem base s hub own old known mine legacy takes =
      let key = hub_scoped_key base (hub_slug hub.id) in
      rw (known, mine, legacy)
        (refl, seeded-own key s own old takes mine, λ j other. seeded-other key j s own old other)
