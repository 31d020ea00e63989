-- ===== src/Chat/Query.antt =====
-- The part of @tanstack/react-query's `QueryClient` that web/src/chat uses. The package is not in
-- the repository: its cache is a parameter, with what its documentation says of reads and writes.
use fusion_on_prem_server.Base.{
  String, ◌≡◌, ◌∙◌, inl, inr, map_option, Option-cases, Bool, true, false, ◌&&◌, Option, none, some,
  List, arith, if◌then◌else◌, str_eq, eq_iff, eq_refl,
}
use fusion_on_prem_server.Base.Int.{ℤ, eq_ℤ, eq_ℤ_refl}
use fusion_on_prem_server.Chat.Types.{ChatMessageList, ChatChannelList, ChatUnreadList}

pub data QueryKey : Type 0 where
  chat_channels : String → QueryKey
  chat_messages : String → String → QueryKey
  chat_thread : String → String → ℤ → QueryKey
  chat_unreads : String → QueryKey

pub data QueryData : Type 0 where
  channels : ChatChannelList → QueryData
  messages : ChatMessageList → QueryData
  unreads : ChatUnreadList → QueryData

abbrev pub key_eq : QueryKey → QueryKey → Bool
key_eq (chat_channels p) (chat_channels q) = str_eq p q
key_eq (chat_messages p c) (chat_messages q d) = str_eq p q && str_eq c d
key_eq (chat_thread p c r) (chat_thread q d s) = str_eq p q && str_eq c d && eq_ℤ r s
key_eq (chat_unreads p) (chat_unreads q) = str_eq p q
key_eq _ _ = false

-- The project that a key belongs to.
abbrev pub project_of : QueryKey → String
project_of (chat_channels p) = p
project_of (chat_messages p c) = p
project_of (chat_thread p c r) = p
project_of (chat_unreads p) = p

pub key_eq-project : (k j : QueryKey) → key_eq k j ≡ true → project_of k ≡ project_of j
key_eq-project (chat_channels p) (chat_channels q) h = (eq_iff p q).0 h
key_eq-project (chat_messages p c) (chat_messages q d) h = (eq_iff p q).0 (ground arith)
key_eq-project (chat_thread p c r) (chat_thread q d s) h = (eq_iff p q).0 (ground arith)
key_eq-project (chat_unreads p) (chat_unreads q) h = (eq_iff p q).0 h
key_eq-project _ _ h = cc

pub key_eq_refl : (k : QueryKey) → key_eq k k ≡ true
key_eq_refl (chat_channels p) = eq_refl p
key_eq_refl (chat_messages p c) = ground (arith, eq_refl p, eq_refl c)
key_eq_refl (chat_thread p c r) = ground (arith, eq_refl p, eq_refl c, eq_ℤ_refl r)
key_eq_refl (chat_unreads p) = eq_refl p

-- `thread_roots` lists the last parts of the cached keys under ['chatThread', project, channel].
pub record QueryClient : Type 1 where
  pub Cache : Type 0
  pub get_query_data : Cache → QueryKey → Option QueryData
  pub put_query_data : Cache → QueryKey → QueryData → Cache
  pub invalidate_queries : Cache → QueryKey → Cache
  pub thread_roots : Cache → String → String → List ℤ
  pub get-put :
      (c : Cache) (k j : QueryKey) (d : QueryData)
      → get_query_data (put_query_data c k d) j
        ≡ (if key_eq k j then some d else get_query_data c j)
  pub get-invalidate :
      (c : Cache) (k j : QueryKey) → get_query_data (invalidate_queries c k) j ≡ get_query_data c j

module _ (qc : QueryClient) where
  open qc use {Cache, get_query_data, put_query_data}

  -- `setQueryData` with `(cur) => cur ? f(cur) : cur`: a query that is not cached is left alone.
  unfoldable pub update_query : Cache → QueryKey → (QueryData → QueryData) → Cache
  update_query c k f = elim (get_query_data c k) [ none ↦ c | some d ↦ put_query_data c k (f d) ]

  pub get-update_query_ne :
      (c : Cache) (k j : QueryKey) (f : QueryData → QueryData)
      → key_eq k j ≡ false
      → get_query_data (update_query c k f) j ≡ get_query_data c j
  unfolding update_query
  get-update_query_ne c k j f ne = elim (Option-cases (get_query_data c k)) [
    | inl missing ↦ rw (missing, update_query)
    | inr (d, found) ↦ rw (found, update_query) (qc.get-put c k j (f d) ∙ rw ne)
  ]

  pub get-update_query_self :
      (c : Cache) (k : QueryKey) (f : QueryData → QueryData)
      → get_query_data (update_query c k f) k ≡ map_option f (get_query_data c k)
  unfolding update_query
  get-update_query_self c k f = elim (Option-cases (get_query_data c k)) [
    | inl missing ↦ rw (missing, update_query) missing
    | inr (d, found) ↦ rw (found, update_query) (qc.get-put c k k (f d) ∙ rw (key_eq_refl k))
  ]
