-- ===== src/Admin/Live/Kvs.antt =====
-- `KvsStore` of crates/admin/src/edge.rs. A put succeeds under the store's present version alone.
use Prim.Native.String.{String}
use virtual_waiting_room.Prelude.{◌+◌, ◌==◌, if◌then◌else◌}
use virtual_waiting_room.Prelude.Result.{Result, ok, err}
use virtual_waiting_room.Prelude.Chars.{Text}
use virtual_waiting_room.Admin.{
  GateConfig, ETag, EdgeStoreError, GateConfigError, Action, EdgeConfigStore,
}
use virtual_waiting_room.Admin.Config.{encode_gate_config}
use virtual_waiting_room.Admin.Actions.{◌>>=◌, pure}
use virtual_waiting_room.Admin.Live.World.{Shared, World, access}

abbrev pub edge_error : String → EdgeStoreError
edge_error text = record { text = text }

-- `describe_key_value_store`, `get_key` and `put_key`.
unfoldable pub describe : Action Shared ETag EdgeStoreError
describe s = (ok (record { version = s.kvs.version }), s)

unfoldable pub get_key : Action Shared GateConfig EdgeStoreError
get_key s = (ok s.kvs.config, s)

unfoldable pub put_key : ETag → GateConfig → Action Shared (Unit {0}) EdgeStoreError
put_key etag cfg s =
    if s.kvs.version == etag.version
    then (ok tt, record s { kvs = record { config = cfg; version = s.kvs.version + 1 } })
    else (err (edge_error "put_key"), s)

unfoldable pub read_config : Action World (GateConfig × ETag) EdgeStoreError
read_config = do
  etag ← access (edge_error "describe_key_value_store") describe
  cfg ← access (edge_error "get_key") get_key
  pure (cfg, etag)

module _ (to_json : GateConfig → Result Text String) where
  abbrev pub if_encoded :
      Result Text GateConfigError → ETag → GateConfig → Action World (Unit {0}) EdgeStoreError
  if_encoded (err e) etag cfg w = (err (edge_error "encode_gate_config"), w)
  if_encoded (ok text) etag cfg w = access (edge_error "put_key") (put_key etag cfg) w

  unfoldable pub write_config : ETag → GateConfig → Action World (Unit {0}) EdgeStoreError
  write_config etag cfg = if_encoded (encode_gate_config to_json cfg) etag cfg

  abbrev pub kvs_store : EdgeConfigStore World
  kvs_store = record { read_config = read_config; write_config = write_config }
