-- ===== src/Board/Store.antt =====
-- tldraw's document store, which web/src/whiteboards/useBoardSync.ts uses and the repository does
-- not hold: its operations as a parameter, with what their documentation says of the records.
use fusion_on_prem_server.Base.{String, ◌≡◌, Option, none, some, List, if◌then◌else◌}
use fusion_on_prem_server.Base.Dict.{Dict, lookup, elem}
use fusion_on_prem_server.Board.Protocol.Diff.{Doc, put_all}

-- `put` and `load` validate the records; `none` is the exception that a refused record raises, and
-- then nothing is known of the store (`torn`).
pub record TlStore (V : Type 0) : Type 1 where
  pub Store : Type 0
  pub get : Store → Doc V
  pub put : Store → Dict V → Option Store
  pub remove : Store → List String → Store
  pub load : Store → Dict V → Option Store
  pub torn : Store → Dict V → Store
  pub get-put :
      (s t : Store) (records : Dict V) (k : String)
      → put s records ≡ some t
      → get t k ≡ put_all records (get s) k
  pub get-remove :
      (s : Store) (ids : List String) (k : String)
      → get (remove s ids) k ≡ (if elem k ids then none else get s k)
  pub get-load :
      (s t : Store) (document : Dict V) (k : String)
      → load s document ≡ some t
      → get t k ≡ lookup k document
