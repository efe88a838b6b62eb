-- ===== src/Node/Queries/Answering.antt =====
-- Every query is answered without a change of the ledger or the graph.
use sovrin.Prelude.{
  String, ◌≡◌, true, some, List, [], ◌∷◌, any, arith, Bool-cases, inl, inr, String-Eq,
}
use sovrin.Python.Dict.{lookup}
use sovrin.Python.Value.{Value, Object, is_str}
use sovrin.Python.Value.Equality.{Value-Eq}
use sovrin.Python.Result.{Result}
use sovrin.Python.Exec.{Exec}
use sovrin.Python.Exec.Relates.{Relates}
use sovrin.Txn.Names
use sovrin.Signing.{Request}
use sovrin.Graph.Db.{OrientDb}
use sovrin.Graph.Replies.{Reader}
use sovrin.Node.Env.{Plenum, Ledger}
use sovrin.Node.Execution.{NodeState}
use sovrin.Node.Queries.Readonly.{
  Answers, answers_rules, nym-Answers, cred_def-Answers, attrs-Answers, issuer_key-Answers,
}
use sovrin.Node.Queries.Txns.{process_get_txn_req, send_txns}
use sovrin.Node.Queries.Dispatch.{process_request, by_type}

abbrev pub query_types : List String
query_types =
    Names.get_nym ∷ Names.get_txns ∷ Names.get_cred_def ∷ Names.get_attr ∷ Names.get_issuer_key ∷ []

module _ (p : Plenum) (q : Reader) (db : OrientDb) (l : Ledger)
    (merkle : l.Log → Value → Result Object)
    (base : Request → String → Exec (NodeState p db l) Unit) (frm : String) where
  txns-Answers :
      (r : Request) → Relates (Answers p db l frm) (process_get_txn_req p q db l merkle r frm)
  unfolding process_get_txn_req send_txns
  txns-Answers r = search answers_rules depth 18

  by_type-Answers :
      (type : Value) (r : Request)
      → any (is_str type) query_types ≡ true
      → Relates (Answers p db l frm) (by_type p q db l merkle base type r frm)
  by_type-Answers type r known = elim (Bool-cases (is_str type Names.get_nym)) [
    | inl t ↦ rw t (nym-Answers p db l frm r)
    | inr f1 ↦ elim (Bool-cases (is_str type Names.get_txns)) [
      | inl t ↦ rw (f1, t) (txns-Answers r)
      | inr f2 ↦ elim (Bool-cases (is_str type Names.get_cred_def)) [
        | inl t ↦ rw (f1, f2, t) (cred_def-Answers p db l frm r)
        | inr f3 ↦ elim (Bool-cases (is_str type Names.get_attr)) [
          | inl t ↦ rw (f1, f2, f3, t) (attrs-Answers p db l frm r)
          | inr f4 ↦ elim (Bool-cases (is_str type Names.get_issuer_key)) [
            | inl t ↦ rw (f1, f2, f3, f4, t) (issuer_key-Answers p db l frm r)
            | inr f5 ↦ ground arith
          ]
        ]
      ]
    ]
  ]

  -- A request of one of the five query types changes neither the graph nor the ledger nor the
  -- waiting clients, and is answered to its sender only, whether its handler returns or raises.
  pub process_request-is_readonly :
      (r : Request) (type : Value) (s : NodeState p db l)
      → lookup Names.txn_type r.operation ≡ some type
      → any (is_str type) query_types ≡ true
      → Answers p db l frm s (process_request p q db l merkle base r frm s).1
  unfolding process_request
  process_request-is_readonly r type s typed known = rw typed ((by_type-Answers type r known).at s)
