-- ===== src/Graph/Creds.antt =====
-- The credential definitions and issuer keys of sovrin/persistence/identity_graph.py:
-- `addCredDef`, `addIssuerKey` and the additions by transaction. Every exception of these goes to
-- plenum's `fault`.
pub mod Queries
use sovrin.Prelude.{String, some, [], ◌∷◌, String-Eq}
use sovrin.Python.Dict.{lookup}
use sovrin.Python.Value.{Value, str, obj, Object, get, to_dict}
use sovrin.Python.Result.{Exc, Result, ok, err, key_error, other, or_raise}
use sovrin.Python.Exec.{Exec, lift, gets, catching, ◌>>=◌, ◌>>◌}
use sovrin.Txn.Names
use sovrin.Graph.Db.{OrientDb, VertexClass, EdgeClass}
use sovrin.Graph.Nyms.{get_nym, update_txn_id_edge}

-- `data.get(k)` for the data of a transaction
abbrev as_data : Value → Result Object
as_data (obj fs) = ok (to_dict fs)
as_data _ = err (other "AttributeError")

module _ (db : OrientDb) where
  open db use {Store, create_vertex, create_edge}

  unfoldable pub add_cred_def : (frm txn_id name version attr_names typ : Value) → Exec Store Unit
  add_cred_def frm txn_id name version attr_names typ = do
    v ← create_vertex VertexClass.cred_def ((Names.typ, typ) ∷ (Names.attr_names, attr_names) ∷ [])
    adder ← gets (get_nym db frm)
    create_edge EdgeClass.adds_cred_def adder (some v)
        ((Names.txn_id, txn_id) ∷ (Names.name, name) ∷ (Names.version, version) ∷ [])

  unfoldable pub try_add_cred_def : (txn_id : Value) → Object → Exec Store Unit
  try_add_cred_def txn_id txn = do
    data_ ← lift (as_data (get Names.data_key txn))
    add_cred_def (get Names.identifier txn) txn_id (get Names.name data_) (get Names.version data_)
        (get Names.attr_names data_) (get Names.typ data_)
    update_txn_id_edge db txn_id EdgeClass.adds_cred_def txn

  unfoldable pub add_cred_def_txn_to_graph : (Exc → Result (Unit {0})) → Object → Exec Store Unit
  unfolding try_add_cred_def
  add_cred_def_txn_to_graph fault txn = do
    txn_id ← lift (or_raise key_error (lookup Names.txn_id txn))
    catching (try_add_cred_def txn_id txn) (λ e. lift (fault e))

  -- `dumps` is `json.dumps`.
  unfoldable pub add_issuer_key :
      (Value → String) → (frm txn_id data_value reference : Value) → Exec Store Unit
  add_issuer_key dumps frm txn_id data_value reference = do
    v ←
        create_vertex VertexClass.issuer_key
          ((Names.data_key, str (dumps data_value)) ∷ (Names.reference, reference) ∷ [])
    adder ← gets (get_nym db frm)
    create_edge EdgeClass.has_issuer_key adder (some v) ((Names.txn_id, txn_id) ∷ [])

  unfoldable pub try_add_issuer_key : (Value → String) → (txn_id : Value) → Object → Exec Store Unit
  try_add_issuer_key dumps txn_id txn = do
    add_issuer_key dumps (get Names.identifier txn) txn_id (get Names.data_key txn)
        (get Names.reference txn)
    update_txn_id_edge db txn_id EdgeClass.has_issuer_key txn

  unfoldable pub add_issuer_key_txn_to_graph :
      (Value → String) → (Exc → Result (Unit {0})) → Object → Exec Store Unit
  unfolding try_add_issuer_key
  add_issuer_key_txn_to_graph dumps fault txn = do
    txn_id ← lift (or_raise key_error (lookup Names.txn_id txn))
    catching (try_add_issuer_key dumps txn_id txn) (λ e. lift (fault e))
