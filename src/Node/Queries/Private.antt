-- ===== src/Node/Queries/Private.antt =====
-- A client gets transactions about itself only.
use sovrin.Prelude.{
  String, ◌≡◌, refl, sym, Bool, true, false, some, List, [], ◌∷◌, ◌++◌, map, any, arith, Bool-cases,
  Option-cases, inl, inr, String-Eq, ◌==◌,
}
use mathlib.Core.List.{append-nil}
use sovrin.Python.Dict.{lookup}
use sovrin.Python.Value.{Value, str, Object}
use sovrin.Python.Value.Equality.{Value-Eq}
use sovrin.Python.Result.{Result}
use sovrin.Python.Exec.{Exec}
use sovrin.Txn.Names
use sovrin.Signing.{Request}
use sovrin.Graph.Db.{OrientDb}
use sovrin.Graph.Replies.{Reader}
use sovrin.Node.Env.{Plenum, Ledger, Message, nack, reply, own_txns_only}
use sovrin.Node.Execution.{NodeState, transmit_to_client}
use sovrin.Node.Queries.Txns.{process_get_txn_req}
use sovrin.Node.Queries.Dispatch.{process_request}
use sovrin.Node.Queries.Answering.{process_request-is_readonly}

abbrev pub is_reply : Message → Bool
is_reply (reply d) = true
is_reply m = false

module _ (p : Plenum) (q : Reader) (db : OrientDb) (l : Ledger)
    (merkle : l.Log → Value → Result Object)
    (base : Request → String → Exec (NodeState p db l) Unit) where
  abbrev addressed : (frm : String) → List Message → List (String × Message)
  addressed frm = map (λ (m : Message). (frm, m))

  -- Whatever a request for transactions asks for, and whether its handler returns or raises, all
  -- that is sent goes to the client that asks, and a reply is sent only if the nym whose
  -- transactions are asked for is the identifier of the request.
  pub process_request-private :
      (r : Request) (frm : String) (s : NodeState p db l)
      → lookup Names.txn_type r.operation ≡ some (str Names.get_txns)
      → let s' = (process_request p q db l merkle base r frm s).1 in
        (ms : List Message) × (s'.sent ≡ s.sent ++ addressed frm ms)
        × (any is_reply ms ≡ true → lookup Names.target_nym r.operation ≡ some r.identifier)
  unfolding process_request process_get_txn_req transmit_to_client
  process_request-private r frm s typed =
      elim (Option-cases (lookup Names.target_nym r.operation)) [
        | inl missing ↦ rw typed (rw missing ([], sym (append-nil s.sent), λ h. ground arith))
        | inr (nym, named) ↦ elim (Bool-cases (nym == r.identifier)) [
          | inl same ↦
              let (ms, sent) =
                (process_request-is_readonly p q db l merkle base frm r (str Names.get_txns) s typed
                  refl).messages in
              (ms, sent, λ replied. rw (named, (Value-Eq.beq_iff nym r.identifier).0 same))
          | inr different ↦
              rw (typed, named)
                (rw different (nack r.req_id own_txns_only ∷ [], refl, λ h. ground arith))
        ]
      ]
