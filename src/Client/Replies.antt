-- ===== src/Client/Replies.antt =====
-- `postReplyRecvd` of sovrin/client/client.py: a reply that enough nodes agree on goes to the
-- observers, to the store of requests and to the client's identity graph, if it has one.
pub mod Kept
pub mod Notified
mod Tests
use sovrin.Prelude.{
  ℕ, String, Bool, true, false, Option, none, some, List, [], ◌∷◌, if◌then◌else◌, String-Eq,
}
use sovrin.Python.Dict.{Dict, lookup}
use sovrin.Python.Value.{
  Value, null, str, obj, arr, Object, Items, nil, cons, get, truthy, is_str, to_dict,
}
use sovrin.Python.Result.{
  Exc, Result, ok, err, key_error, type_error, value_error, attribute_error, orient_command,
  or_raise,
}
use sovrin.Python.Exec.{Exec, pure, raise, lift, catching, ◌>>=◌, ◌>>◌}
use sovrin.Txn.Names
use sovrin.Signing.{as_object}
use sovrin.Graph.Db.{OrientDb}
use sovrin.Graph.Nyms.{add_nym_txn_to_graph}
use sovrin.Graph.Attributes.{add_attrib_txn_to_graph}
use sovrin.Graph.Creds.{add_cred_def_txn_to_graph, add_issuer_key_txn_to_graph}
use sovrin.Graph.Replies.{item}
use sovrin.Client.{add_nym_to_graph}

-- The rest of the program: what the observers change, and the store of requests and replies.
-- `fault` and `error` are plenum's, as in the graph.
pub record Outside (W O : Type 0) : Type 0 where
  pub call : O → (name : String) → Object → Exec W Unit
  pub is_orient_db : Bool
  pub set_consensus : Exec W Unit
  pub set_last_txn_for_identifier : (identifier last : Value) → Exec W Unit
  pub json_loads : String → Option Value
  pub json_dumps : Value → String
  pub fault : Exc → Result (Unit {0})
  pub error : Result (Unit {0})

-- A client: the rest, and its graph.
pub record Client (W : Type 0) (db : OrientDb) : Type 0 where
  pub outside : W
  pub graph : db.Store

-- `json.loads(v)`
abbrev pub load : (String → Option Value) → Value → Result Value
load loads (str s) = or_raise value_error (loads s)
load loads v = err type_error

abbrev items_of : Value → Result Items
items_of (arr vs) = ok vs
items_of v = err type_error

-- `has_graph` says whether the client is configured to have a graph
module _ {W O : Type 0} (out : Outside W O) (db : OrientDb) (has_graph : Bool) where
  abbrev pub on_outside : Exec W Unit → Exec (Client W db) Unit
  on_outside m c = let (r, w) = m c.outside in (r, record c { outside = w })

  abbrev pub on_graph : Exec db.Store Unit → Exec (Client W db) Unit
  on_graph m c = let (r, g) = m c.graph in (r, record c { graph = g })

  abbrev pub if_graph : Exec db.Store Unit → Exec (Client W db) Unit
  if_graph m = if has_graph then on_graph m else pure tt

  abbrev pub ignore : Exc → Exec W Unit
  ignore e = pure tt

  -- the loop over the observers; one that raises does not keep the reply from the others
  unfoldable pub notify_all : Object → Dict String O → Exec W Unit
  notify_all result [] = pure tt
  notify_all result ((name, o) ∷ os) = do
    catching (out.call o name result) ignore
    notify_all result os

  abbrev pub command_fault : Exc → Exec db.Store Unit
  command_fault orient_command = lift (out.fault orient_command)
  command_fault e = raise e

  abbrev pub add_synced : Value → Object → Exec db.Store Unit
  add_synced type txn =
      if is_str type Names.nym
      then add_nym_to_graph db out.fault txn
      else if is_str type Names.attrib
      then catching (add_attrib_txn_to_graph db out.fault out.error txn) command_fault
      else pure tt

  abbrev pub add_one_synced : Value → Exec db.Store Unit → Exec db.Store Unit
  add_one_synced v next = do
    txn ← lift (as_object v)
    type ← lift (item Names.txn_type txn)
    add_synced type txn
    next

  -- the loop over the transactions of a reply to GET_TXNS
  unfoldable pub add_all_synced : Items → Exec db.Store Unit
  unfolding add_nym_to_graph add_attrib_txn_to_graph
  add_all_synced nil = pure tt
  add_all_synced (cons v vs) = add_one_synced v (add_all_synced vs)

  unfoldable pub get_nym_received : Object → Exec db.Store Unit
  get_nym_received result =
      if truthy (get Names.data_key result)
      then (do
        loaded ← lift (load out.json_loads (get Names.data_key result))
        txn ← lift (as_object loaded)
        add_nym_to_graph db out.fault txn)
      else pure tt

  abbrev if_graph_synced : Object → Exec (Client W db) Unit
  if_graph_synced data_ =
      if has_graph
      then (do
        held ← lift (item Names.txns data_)
        txns ← lift (items_of held)
        on_graph (add_all_synced txns))
      else pure tt

  unfoldable pub get_txns_received : Object → Exec (Client W db) Unit
  unfolding add_all_synced
  get_txns_received result =
      if truthy (get Names.data_key result)
      then (do
        loaded ← lift (load out.json_loads (get Names.data_key result))
        data_ ← lift (as_object loaded)
        identifier ← lift (item Names.identifier result)
        last ← lift (item Names.last_txn data_)
        on_outside (out.set_last_txn_for_identifier identifier last)
        if_graph_synced data_)
      else pure tt

  abbrev pub by_type : Value → Object → Exec (Client W db) Unit
  by_type type result =
      if is_str type Names.nym
      then if_graph (add_nym_to_graph db out.fault result)
      else if is_str type Names.attrib
      then if_graph (add_attrib_txn_to_graph db out.fault out.error result)
      else if is_str type Names.get_nym
      then if_graph (get_nym_received result)
      else if is_str type Names.get_txns
      then get_txns_received result
      else if is_str type Names.cred_def
      then if_graph (add_cred_def_txn_to_graph db out.fault result)
      else if is_str type Names.issuer_key
      then if_graph (add_issuer_key_txn_to_graph db out.json_dumps out.fault result)
      else pure tt

  -- `replied` says whether plenum's method returned a reply
  unfoldable pub post_reply_recvd :
      (replied : Bool) → Dict String O → Object → Exec (Client W db) Unit
  unfolding notify_all get_nym_received get_txns_received
  post_reply_recvd replied observers result =
      if replied
      then (do
        on_outside (notify_all result observers)
        if out.is_orient_db then on_outside out.set_consensus else pure tt
        type ← lift (item Names.txn_type result)
        by_type type result)
      else pure tt
