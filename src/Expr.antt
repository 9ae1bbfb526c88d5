-- ===== src/Expr.antt =====
-- crates/wr-common/src/expr.rs: which row a request is for.
pub mod Hash
pub mod Keys
use Prim.Native.String.{String, ◌++◌}
use virtual_waiting_room.Prelude.{ℕ, List, [], ◌∷◌}
use virtual_waiting_room.Prelude.Decimal.{to_string}
use virtual_waiting_room.Assembly.{Shard}
use virtual_waiting_room.Items.Attributes.{Item, s}

abbrev pub key_attr : String
key_attr = "event_id"

abbrev pub tokens_key_attr : String
tokens_key_attr = "request_id"

abbrev pub prequeue_key_attr : String
prequeue_key_attr = "r"

abbrev pub positions_key_attr : String
positions_key_attr = "request_id"

abbrev pub tokens_ttl_attr : String
tokens_ttl_attr = "expires_at"

pub data Key : Type 0 where
  event : String → Key
  prequeue_shard arrivals_shard : String → Shard → Key
  oidc_session pkce_transaction prequeue position : String → Key

unfoldable pub attr : Key → String
attr (event event_id) = key_attr
attr (prequeue_shard event_id shard) = key_attr
attr (arrivals_shard event_id shard) = key_attr
attr (oidc_session session_id) = tokens_key_attr
attr (pkce_transaction state) = tokens_key_attr
attr (prequeue request_id) = prequeue_key_attr
attr (position request_id) = positions_key_attr

unfoldable pub value : Key → String
value (event event_id) = "EVT#" ++ event_id
value (prequeue_shard event_id shard) = "EVT#" ++ (event_id ++ ("#PQ#" ++ to_string shard.index))
value (arrivals_shard event_id shard) = "EVT#" ++ (event_id ++ ("#AR#" ++ to_string shard.index))
value (oidc_session session_id) = "SESS#" ++ session_id
value (pkce_transaction state) = "PKCE#" ++ state
value (prequeue request_id) = request_id
value (position request_id) = request_id

unfoldable pub build : Key → Item
unfolding attr value
build key = (attr key, s (value key)) ∷ []
