-- ===== src/Node/Queries/Dispatch.antt =====
-- `processRequest` of sovrin/server/node.py: queries have handlers of their own; plenum's node
-- processes the other requests.
use sovrin.Prelude.{String, if◌then◌else◌}
use sovrin.Python.Value.{Value, Object, is_str}
use sovrin.Python.Result.{Result}
use sovrin.Python.Exec.{Exec, lift, ◌>>=◌}
use sovrin.Txn.Names
use sovrin.Signing.{Request}
use sovrin.Graph.Db.{OrientDb}
use sovrin.Graph.Replies.{Reader, item}
use sovrin.Node.Env.{Plenum, Ledger}
use sovrin.Node.Execution.{NodeState}
use sovrin.Node.Queries.{
  process_get_nym_req, process_get_cred_def_req, process_get_attrs_req, process_get_issuer_key_req,
}
use sovrin.Node.Queries.Txns.{process_get_txn_req}

module _ (p : Plenum) (q : Reader) (db : OrientDb) (l : Ledger)
    (merkle : l.Log → Value → Result Object)
    (base : Request → String → Exec (NodeState p db l) Unit) where
  abbrev pub by_type : Value → Request → (frm : String) → Exec (NodeState p db l) Unit
  by_type type r frm =
      if is_str type Names.get_nym
      then process_get_nym_req p db l r frm
      else if is_str type Names.get_txns
      then process_get_txn_req p q db l merkle r frm
      else if is_str type Names.get_cred_def
      then process_get_cred_def_req p db l r frm
      else if is_str type Names.get_attr
      then process_get_attrs_req p db l r frm
      else if is_str type Names.get_issuer_key
      then process_get_issuer_key_req p db l r frm
      else base r frm

  unfoldable pub process_request : Request → (frm : String) → Exec (NodeState p db l) Unit
  unfolding process_get_nym_req process_get_cred_def_req process_get_attrs_req
      process_get_issuer_key_req process_get_txn_req
  process_request r frm = do type ← lift (item Names.txn_type r.operation); by_type type r frm
