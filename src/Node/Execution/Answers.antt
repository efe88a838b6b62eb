-- ===== src/Node/Execution/Answers.antt =====
-- A client that waits for its request is answered when the request is executed.
use sovrin.Prelude.{
  ℕ, String, ◌≡◌, refl, Bool, true, false, Option, none, some, [], ◌∷◌, ◌++◌, arith, if◌then◌else◌,
  String-Eq, ℕ-Eq, Pair-Eq, ◌∙◌, sym, subst, Option-cases, inl, inr, beq_refl,
}
use sovrin.Python.Dict.{lookup, insert, update, lookup-erase, lookup-insert}
use sovrin.Python.Value.{Value, num, str, Object, get, is_str}
use sovrin.Python.Result.{ok}
use sovrin.Txn.Names
use sovrin.Signing.{Request}
use sovrin.Graph.Db.{OrientDb}
use sovrin.Node.Env.{Plenum, Ledger, Message, nack, reply, already_added}
use sovrin.Node.Execution.{
  sender_key, generate_reply, ledger_entry, NodeState, store_txn_in_ledger, store_txn_in_graph,
  take_sender, send_reply_to_client, store_txn_and_send_to_client, is_known_nym, do_custom_action,
}
use sovrin.Node.Execution.Kept.{IsKept, ledger_entry-keeps, with_info-keeps}

identifier-IsKept : IsKept Names.identifier
identifier-IsKept = ground arith

req_id-IsKept : IsKept Names.req_id
req_id-IsKept = ground arith

generate_reply-identifier :
    (p : Plenum) (t : ℕ) (r : Request)
    → lookup Names.identifier (generate_reply p t r) ≡ some r.identifier
unfolding generate_reply update
generate_reply-identifier p t r = rw lookup-insert (rw lookup-insert)

generate_reply-req_id :
    (p : Plenum) (t : ℕ) (r : Request)
    → lookup Names.req_id (generate_reply p t r) ≡ some (num r.req_id)
unfolding generate_reply update
generate_reply-req_id p t r = rw lookup-insert

module _ (p : Plenum) (db : OrientDb) (l : Ledger) where
  -- The message `m`, and no other, went to `to`, and the request waits no more.
  pub record Answered (k : String × ℕ) (to : String) (m : Message) (s t : NodeState p db l)
      : Type 0 where
    pub sent : t.sent ≡ s.sent ++ (to, m) ∷ []
    pub served : lookup k t.request_sender ≡ none

  take_sender-Answered :
      (k : String × ℕ) (m : Message) (to : String) (s : NodeState p db l)
      → lookup k s.request_sender ≡ some to
      → Answered k to m s (take_sender p db l (some k) m s)
  take_sender-Answered k m to s waits =
      rw (waits, take_sender) (record { sent = refl; served = rw lookup-erase (rw (beq_refl k)) })

  abbrev SameClients : NodeState p db l → NodeState p db l → Type 0
  SameClients s t = (t.sent ≡ s.sent) × (t.request_sender ≡ s.request_sender)

  store_txn_in_graph-SameClients :
      (txn : Object) (s : NodeState p db l) → SameClients s (store_txn_in_graph p db l txn s).1
  unfolding store_txn_in_graph
  store_txn_in_graph-SameClients txn s = elim (Option-cases (lookup Names.txn_type txn)) [
    | inl missing ↦ rw missing (refl, refl)
    | inr (t, there) ↦ rw there (refl, refl)
  ]

  Answered-same :
      (k : String × ℕ) (to : String) (m : Message) (s t u : NodeState p db l)
      → Answered k to m s t
      → SameClients t u
      → Answered k to m s u
  Answered-same k to m s t u a (sent, senders) = record {
    sent = sent ∙ a.sent;
    served = rw senders a.served;
  }

  module _ (t : ℕ) (r : Request) (o to : String) (s : NodeState p db l)
      (from : r.identifier ≡ str o) (waits : lookup (o, r.req_id) s.request_sender ≡ some to) where
    abbrev txn : Object
    txn = generate_reply p t r

    -- the ledger's entry with its merkle information
    abbrev with_merkle : Object → Object
    with_merkle entry = update entry (l.append entry s.log).0

    -- the nack of a NYM request for a known nym, and the reply to any other request
    abbrev pub answer : (known : Bool) → (entry : Object) → Message
    answer true entry = nack r.req_id already_added
    answer false entry = reply (with_merkle entry)

    -- the reply goes to the client that waits under the identifier and the number of the request
    key-with_info :
        (entry : Object)
        → ledger_entry p txn ≡ ok entry
        → let with_info = with_merkle entry in
          sender_key (get Names.identifier with_info) (get Names.req_id with_info)
          ≡ some (o, r.req_id)
    unfolding get
    key-with_info entry made =
        rw (with_info-keeps l entry s.log Names.identifier identifier-IsKept) (
          rw (ledger_entry-keeps p txn entry Names.identifier identifier-IsKept made) (
            rw (generate_reply-identifier p t r) (
              rw (with_info-keeps l entry s.log Names.req_id req_id-IsKept) (
                rw (ledger_entry-keeps p txn entry Names.req_id req_id-IsKept made)
                  (rw (generate_reply-req_id p t r) (rw from))))))

    stored-Answered :
        (y : Value) (entry : Object)
        → lookup Names.txn_type txn ≡ some y
        → ledger_entry p txn ≡ ok entry
        → Answered
            (o, r.req_id)
            to
            (reply (with_merkle entry))
            s
            (store_txn_and_send_to_client p db l txn s).1
    unfolding store_txn_and_send_to_client store_txn_in_ledger send_reply_to_client
    stored-Answered y entry typed made =
        rw (typed, made)
          (let with_info = with_merkle entry in
            let appended = record s { log = (l.append entry s.log).1 } in
            let key = sender_key (get Names.identifier with_info) (get Names.req_id with_info) in
            let own = if is_str (get Names.txn_type txn) Names.attrib then txn else with_info in
            let taken = take_sender-Answered (o, r.req_id) (reply with_info) to appended waits in
            Answered-same (o, r.req_id) to (reply with_info) s
              (take_sender p db l key (reply with_info) appended)
              (store_txn_in_graph p db l (insert Names.seq_no (get Names.seq_no with_info) own)
                (take_sender p db l key (reply with_info) appended)).1
              (subst
                (λ (k : Option (String × ℕ)).
                  Answered (o, r.req_id) to (reply with_info) s
                    (take_sender p db l k (reply with_info) appended))
                (sym (key-with_info entry made))
                (record { sent = taken.sent; served = taken.served }))
              (store_txn_in_graph-SameClients (insert Names.seq_no (get Names.seq_no with_info) own)
                (take_sender p db l key (reply with_info) appended)))

    -- A client that waits for a request gets one message when the request is executed, and waits no
    -- more: if the request is not refused for a missing key, and its transaction has a type and
    -- data that can be hashed. The message is the nack with the number of the request if it is a
    -- NYM request for a known nym, and else the reply with the ledger's entry of the transaction
    -- and its merkle information. This holds also where the addition to the graph raises.
    pub do_custom_action-answers :
        (known : Bool) (y : Value) (entry : Object)
        → is_known_nym p db l r s.graph ≡ ok known
        → lookup Names.txn_type txn ≡ some y
        → ledger_entry p txn ≡ ok entry
        → Answered (o, r.req_id) to (answer known entry) s (do_custom_action p db l t r s).1
    unfolding do_custom_action
    do_custom_action-answers true y entry known typed made =
        rw known
          (rw from (take_sender-Answered (o, r.req_id) (nack r.req_id already_added) to s waits))
    do_custom_action-answers false y entry known typed made =
        rw known (stored-Answered y entry typed made)
