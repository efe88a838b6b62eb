-- ===== src/Node/Execution.antt =====
-- The execution of an ordered request: `doCustomAction`, `generateReply`, `storeTxnAndSendToClient`
-- and what they call.
pub mod Effects
pub mod Kept
pub mod World
pub mod Synced
pub mod Answers
use sovrin.Prelude.{
  ℕ, String, Bool, true, false, Option, none, some, List, [], ◌∷◌, ◌++◌, if◌then◌else◌, String-Eq,
  ℕ-Eq, Pair-Eq,
}
use sovrin.Python.Dict.{Dict, lookup, insert, erase, update, contains}
use sovrin.Python.Value.{Value, null, num, str, Object, get, is_str}
use sovrin.Python.Result.{Exc, Result, ok, err, key_error, other, or_raise}
use sovrin.Python.Exec.{Exec, pure, raise, lift, gets, modify, ◌>>=◌, ◌>>◌}
use sovrin.Txn.Names
use sovrin.Signing.{Request, hash_key}
use sovrin.Graph.Db.{OrientDb}
use sovrin.Graph.Nyms.{has_nym, add_nym_txn_to_graph}
use sovrin.Graph.Attributes.{add_attrib_txn_to_graph}
use sovrin.Graph.Creds.{add_cred_def_txn_to_graph, add_issuer_key_txn_to_graph}
use sovrin.Node.Env.{Plenum, Ledger, State, Message, ack, nack, reply, already_added}

-- `(identifier, reqId)`, under which a client waits for the reply to its request
abbrev pub sender_key : (identifier req_id : Value) → Option (String × ℕ)
sender_key (str i) (num r) = some (i, r)
sender_key _ _ = none

-- `generateReply`: the transaction that a request becomes
unfoldable pub generate_reply : Plenum → (pp_time : ℕ) → Request → Object
unfolding update
generate_reply p pp_time r =
    update
      (update
        ((Names.txn_id, str (p.gen_txn_id r.identifier r.req_id))
          ∷ (Names.txn_time, num pp_time)
          ∷ [])
        r.operation)
      ((Names.identifier, r.identifier) ∷ (Names.req_id, num r.req_id) ∷ [])

-- the entry that the ledger keeps: the data of an attribute are replaced by their hash
unfoldable pub ledger_entry : Plenum → Object → Result Object
unfolding hash_key
ledger_entry p result =
    if is_str (get Names.txn_type result) Names.attrib
    then (if contains Names.raw result
        then hash_key p.sha256 Names.raw result
        else if contains Names.enc result
        then hash_key p.sha256 Names.enc result
        else if contains Names.hash result
        then ok result
        else elim p.error [ ok _ ↦ ok result | err e ↦ err e ])
    else ok result

-- `storeTxnInGraph` works on a copy without the root hash and the audit path
abbrev pub graph_txn : Object → Object
graph_txn result = erase Names.audit_path (erase Names.root_hash result)

module _ (p : Plenum) (db : OrientDb) (l : Ledger) where
  abbrev pub NodeState : Type 0
  NodeState = State db l

  -- an action of the identity graph, as one of the node
  abbrev pub on_graph {ℓ} :
      {A : Type ℓ} → (db.Store → Result A × db.Store) → NodeState → Result A × NodeState
  on_graph m s = let (r, g) = m s.graph in (r, record s { graph = g })

  unfoldable pub transmit_to_client : Message → String → Exec NodeState Unit
  transmit_to_client m to = modify (λ s. record s { sent = s.sent ++ (to, m) ∷ [] })

  -- `addToLedger`
  add_to_ledger : Object → Exec NodeState Object
  add_to_ledger txn s = let (info, log) = l.append txn s.log in (ok info, record s { log = log })

  -- `storeTxnInLedger`. The result has the merkle information; of an attribute it is a copy, and
  -- of any other transaction it is the reply's own dict, which the second part returns.
  unfoldable pub store_txn_in_ledger : Object → Exec NodeState (Object × Object)
  unfolding add_to_ledger
  store_txn_in_ledger result = do
    lift (or_raise key_error (lookup Names.txn_type result))
    entry ← lift (ledger_entry p result)
    info ← add_to_ledger entry
    let with_info = update entry info
    pure (with_info, if is_str (get Names.txn_type result) Names.attrib then result else with_info)

  abbrev pub graph_action : Object → Exec db.Store Unit
  graph_action txn =
      let type = get Names.txn_type txn in
      if is_str type Names.nym
      then add_nym_txn_to_graph db p.fault txn
      else if is_str type Names.attrib
      then add_attrib_txn_to_graph db p.fault p.error txn
      else if is_str type Names.cred_def
      then add_cred_def_txn_to_graph db p.fault txn
      else if is_str type Names.issuer_key
      then add_issuer_key_txn_to_graph db p.json_dumps p.fault txn
      else pure tt

  unfoldable pub store_txn_in_graph : Object → Exec NodeState Unit
  store_txn_in_graph result = do
    lift (or_raise key_error (lookup Names.txn_type result))
    on_graph (graph_action (graph_txn result))

  abbrev pub take_sender : Option (String × ℕ) → Message → NodeState → NodeState
  take_sender none m s = s
  take_sender (some k) m s = elim (lookup k s.request_sender) [
    | none ↦ s
    | some to ↦ record s {
      request_sender = erase k s.request_sender;
      sent = s.sent ++ (to, m) ∷ [];
    }
  ]

  -- `sendReplyToClient`: to the client that waits under the transaction's key, if one does
  unfoldable pub send_reply_to_client : Object → Exec NodeState Unit
  unfolding lookup erase
  send_reply_to_client result = modify (
      take_sender (sender_key (get Names.identifier result) (get Names.req_id result))
        (reply result))

  unfoldable pub store_txn_and_send_to_client : Object → Exec NodeState Unit
  unfolding insert
  store_txn_and_send_to_client result = do
    stored ← store_txn_in_ledger result
    send_reply_to_client stored.0
    store_txn_in_graph (insert Names.seq_no (get Names.seq_no stored.0) stored.1)

  abbrev is_known_target : Option Value → db.Store → Result Bool
  is_known_target none g = err key_error
  is_known_target (some target) g = ok (has_nym db target g)

  abbrev is_known_by : (type target : Option Value) → db.Store → Result Bool
  is_known_by none target g = err key_error
  is_known_by (some type) target g =
      if is_str type Names.nym then is_known_target target g else ok false

  -- a NYM request for a nym that the graph has
  unfoldable pub is_known_nym : Request → db.Store → Result Bool
  is_known_nym r g =
      is_known_by (lookup Names.txn_type r.operation) (lookup Names.target_nym r.operation) g

  abbrev pub act : ℕ → Request → Result Bool → Exec NodeState Unit
  act pp_time r (err e) s = (err e, s)
  act pp_time r (ok true) s =
      (ok tt, take_sender (sender_key r.identifier (num r.req_id)) (nack r.req_id already_added) s)
  act pp_time r (ok false) s = store_txn_and_send_to_client (generate_reply p pp_time r) s

  -- `doCustomAction`
  unfoldable pub do_custom_action : (pp_time : ℕ) → Request → Exec NodeState Unit
  do_custom_action pp_time r s = act pp_time r (is_known_nym r s.graph) s
