-- ===== src/Server/Keys.antt =====
-- The key-value routes of internal/server/routes.go, with what they write to the database.
use rdw.Common.{
  if◌then◌else◌, Dict, insert, remove, Result, ok, err, Text, codes, Bool, Option, none, some,
}
use rdw.Kv as Store
use rdw.Kv.{Key, KvError, parse_key, Store}
use rdw.Server.{
  Server, Env, said, by_kv, keys_body, value_body, Answer, api_error, write_header, json_response,
  with_body,
}

unfoldable pub handle_kv_list : Text → Server → Answer
handle_kv_list prefix s = json_response (keys_body (Store.keys prefix s.router.store)) s

abbrev pub with_key : Result KvError Key → (Key → Server → Answer) → Server → Answer
with_key (err e) k s = api_error 400 (by_kv e) s
with_key (ok key) k s = k key s

abbrev pub found_value : Text → Option Text → Server → Answer
found_value text none s = api_error 404 (said (codes "key not found")) s
found_value text (some v) s = json_response (value_body text v) s

unfoldable pub handle_kv_get : Text → Server → Answer
handle_kv_get text =
    with_key (parse_key text) (λ k s. found_value text (Store.get k s.router.store) s)

abbrev set_store : Store.Store → Server → Server
set_store st s = record s { router = record s.router { store = st } }

-- A write that the database refuses is only logged.
abbrev db_write : Bool → (Dict Text → Dict Text) → Option (Dict Text) → Option (Dict Text)
db_write writes f none = none
db_write writes f (some rows) = some (if writes then f rows else rows)

abbrev pub stored_value :
    Env → Key → Text → Store.Store × Result Store.KvError Unit → Server → Answer
stored_value env k v (st, err e) s = api_error 413 (by_kv e) (set_store st s)
stored_value env k v (st, ok tt) s =
    write_header 204
      (set_store st (record s { kv_db = db_write env.db_writes (insert k v) s.kv_db }))

unfoldable pub handle_kv_set : Env → Text → Option Text → Server → Answer
handle_kv_set env text body =
    with_key (parse_key text)
      (λ k. with_body body (λ v s. stored_value env k v (Store.put k v s.router.store) s))

unfoldable pub handle_kv_delete : Env → Text → Server → Answer
handle_kv_delete env text = with_key (parse_key text) (λ k s. write_header 204 (
    set_store (Store.delete k s.router.store)
      (record s { kv_db = db_write env.db_writes (remove k) s.kv_db })))
