-- ===== src/Node/Queries.antt =====
-- The handlers of queries of sovrin/server/node.py: `processGetNymReq`, `processGetCredDefReq`,
-- `processGetAttrsReq` and `processGetIssuerKeyReq`. The name of an attribute is a string.
pub mod Readonly
pub mod Asked
pub mod Txns
pub mod Dispatch
pub mod Private
pub mod Answering
mod Tests
use sovrin.Prelude.{ℕ, String, Option, none, some, List, [], ◌∷◌, String-Eq}
use sovrin.Python.Dict.{lookup, insert, update}
use sovrin.Python.Value.{Value, null, num, str, obj, Object, get, of_dict}
use sovrin.Python.Result.{Result, ok, err, key_error, or_raise}
use sovrin.Python.Exec.{Exec, pure, lift, asks, ◌>>=◌, ◌>>◌}
use sovrin.Txn.Names
use sovrin.Signing.{Request, as_object, as_string}
use sovrin.Graph.Db.{OrientDb}
use sovrin.Graph.Nyms.{get_add_nym_txn}
use sovrin.Graph.Attributes.Queries.{get_raw_attrs}
use sovrin.Graph.Creds.Queries.{get_cred_def, get_issuer_keys}
use sovrin.Node.Env.{Plenum, Ledger, ack, reply}
use sovrin.Node.Execution.{NodeState, on_graph, transmit_to_client}

-- `d[k]`
abbrev item : String → Object → Result Value
item k d = or_raise key_error (lookup k d)

module _ (p : Plenum) (db : OrientDb) (l : Ledger) where
  abbrev query {ℓ} :
      {A : Type ℓ} → (db.Store → Result A) → NodeState p db l → Result A × NodeState p db l
  query q s = (q s.graph, s)

  -- `json.dumps(txn) if txn else None`
  abbrev dump_found : Option Object → Value
  dump_found none = null
  dump_found (some []) = null
  dump_found (some (e ∷ es)) = str (p.json_dumps (obj (of_dict (e ∷ es))))

  -- `json.dumps` of a dict or `None`
  abbrev dump : Option Object → Value
  dump none = str (p.json_dumps null)
  dump (some d) = str (p.json_dumps (obj (of_dict d)))

  abbrev txn_id_of : Request → Value
  txn_id_of r = str (p.gen_txn_id r.identifier r.req_id)

  abbrev own_keys : Request → Object
  own_keys r = (Names.identifier, r.identifier) ∷ (Names.req_id, num r.req_id) ∷ []

  unfoldable pub process_get_nym_req : Request → (frm : String) → Exec (NodeState p db l) Unit
  unfolding update
  process_get_nym_req r frm = do
    transmit_to_client p db l (ack r.req_id) frm
    nym ← lift (item Names.target_nym r.operation)
    txn ← query (get_add_nym_txn db nym)
    transmit_to_client p db l
        (reply (
          update
            ((Names.identifier, r.identifier)
              ∷ (Names.req_id, num r.req_id)
              ∷ (Names.data_key, dump_found txn)
              ∷ (Names.txn_id, txn_id_of r)
              ∷ [])
            r.operation))
        frm

  -- the result that ends with the operation, then data, then the request's own keys
  abbrev result_with : Request → Value → Object
  result_with r found =
      update (insert Names.data_key found (update ((Names.txn_id, txn_id_of r) ∷ []) r.operation))
        (own_keys r)

  unfoldable pub process_get_cred_def_req : Request → (frm : String) → Exec (NodeState p db l) Unit
  unfolding update insert
  process_get_cred_def_req r frm = do
    issuer ← lift (item Names.target_nym r.operation)
    about ← lift (item Names.data_key r.operation)
    asked ← lift (as_object about)
    name ← lift (item Names.name asked)
    version ← lift (item Names.version asked)
    found ← query (get_cred_def db issuer name version)
    transmit_to_client p db l (reply (result_with r (dump found))) frm

  -- `attrWithSeqNo`, a dict from the name to the attribute and its number, may be empty
  abbrev attribute_found : String → List (String × (Value × ℕ)) → Result Object
  attribute_found name [] = ok []
  attribute_found name (e ∷ es) = elim (lookup name (e ∷ es)) [
    | none ↦ err key_error
    | some (v, n) ↦ ok (
        (Names.data_key, str (p.json_dumps (obj (of_dict ((name, v) ∷ [])))))
        ∷ (Names.seq_no, num n)
        ∷ [])
  ]

  unfoldable pub process_get_attrs_req : Request → (frm : String) → Exec (NodeState p db l) Unit
  unfolding update
  process_get_attrs_req r frm = do
    transmit_to_client p db l (ack r.req_id) frm
    raw ← lift (item Names.raw r.operation)
    nym ← lift (item Names.target_nym r.operation)
    name ← lift (as_string raw)
    attrs ← query (get_raw_attrs db p.json_loads nym (name ∷ []))
    found ← lift (attribute_found name attrs)
    transmit_to_client p db l
        (reply (update (update ((Names.txn_id, txn_id_of r) ∷ found) r.operation) (own_keys r))) frm

  unfoldable pub process_get_issuer_key_req :
      Request → (frm : String) → Exec (NodeState p db l) Unit
  unfolding update insert
  process_get_issuer_key_req r frm = do
    transmit_to_client p db l (ack r.req_id) frm
    issuer ← lift (item Names.origin r.operation)
    ref ← lift (item Names.reference r.operation)
    found ← query (get_issuer_keys db p.json_loads p.to_str issuer ref)
    transmit_to_client p db l (reply (result_with r (dump found))) frm
