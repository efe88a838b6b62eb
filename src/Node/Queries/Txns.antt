-- ===== src/Node/Queries/Txns.antt =====
-- `processGetTxnReq` of sovrin/server/node.py: a client asks for the transactions about itself.
use sovrin.Prelude.{String, [], ◌∷◌, map, if◌then◌else◌, ◌==◌, String-Eq}
use sovrin.Python.Dict.{update, insert}
use sovrin.Python.Value.{Value, num, str, obj, arr, Object, get, of_dict, of_list}
use sovrin.Python.Value.Equality.{Value-Eq}
use sovrin.Python.Result.{Result}
use sovrin.Python.Exec.{Exec, lift, asks, ◌>>=◌, ◌>>◌}
use sovrin.Txn.Names
use sovrin.Signing.{Request}
use sovrin.Graph.Db.{OrientDb}
use sovrin.Graph.Replies.{Reader, item}
use sovrin.Node.Env.{Plenum, Ledger, ack, nack, reply, own_txns_only}
use sovrin.Node.Execution.{NodeState, transmit_to_client}
use sovrin.Node.Queries.Asked.{Keyed, keyed_txn, last_of, txns_for}

module _ (p : Plenum) (q : Reader) (db : OrientDb) (l : Ledger)
    (merkle : l.Log → Value → Result Object) where
  abbrev txns_dump : Value → Keyed → String
  txns_dump asked txns = p.json_dumps (
      obj (
        of_dict (
          (Names.last_txn, last_of p.to_str asked txns)
          ∷ (Names.txns, arr (of_list (map keyed_txn txns)))
          ∷ [])))

  abbrev txns_result : Request → Keyed → Object
  txns_result r txns =
      update
        (insert Names.data_key (str (txns_dump (get Names.data_key r.operation) txns))
          (update ((Names.txn_id, str (p.gen_txn_id r.identifier r.req_id)) ∷ []) r.operation))
        ((Names.identifier, r.identifier) ∷ (Names.req_id, num r.req_id) ∷ [])

  unfoldable pub send_txns : Request → (frm : String) → Exec (NodeState p db l) Unit
  unfolding update insert last_of
  send_txns r frm = do
    transmit_to_client p db l (ack r.req_id) frm
    txns ← asks (txns_for p q db l merkle r)
    transmit_to_client p db l (reply (txns_result r txns)) frm

  unfoldable pub process_get_txn_req : Request → (frm : String) → Exec (NodeState p db l) Unit
  unfolding send_txns
  process_get_txn_req r frm = do
    nym ← lift (item Names.target_nym r.operation)
    if nym == r.identifier
        then send_txns r frm
        else transmit_to_client p db l (nack r.req_id own_txns_only) frm
