-- ===== src/Node/Startup.antt =====
-- `_addTxnsToGraphIfNeeded` of sovrin/server/node.py: at its start a node adds to its graph the
-- transactions of the ledger that the graph does not have yet. `getAllTxn` numbers them from 1.
pub mod Recovery
pub mod Restart
pub mod Once
use sovrin.Prelude.{ℕ, suc, ◌+◌, Bool, true, false, List, [], ◌∷◌, ltb, if◌then◌else◌, String-Eq}
use sovrin.Python.Dict.{insert}
use sovrin.Python.Value.{num, Object}
use sovrin.Python.Exec.{Exec, pure, gets, ◌>>=◌, ◌>>◌}
use sovrin.Txn.Names
use sovrin.Graph.Db.{OrientDb}
use sovrin.Graph.Count.{count_txns}
use sovrin.Node.Env.{Plenum, Ledger}
use sovrin.Node.Execution.{NodeState, store_txn_in_graph}

module _ (p : Plenum) (db : OrientDb) (l : Ledger) where
  abbrev store_if : Bool → Object → Exec (NodeState p db l) Unit
  store_if true txn = store_txn_in_graph p db l txn
  store_if false txn = pure tt

  -- the loop: `seq_no` is the number of the first of the transactions, and `i` counts the added
  unfoldable pub add_missing :
      (count seq_no : ℕ) → List Object → (i : ℕ) → Exec (NodeState p db l) ℕ
  unfolding insert
  add_missing count seq_no [] i = pure i
  add_missing count seq_no (txn ∷ txns) i = do
    store_if (ltb count seq_no) (insert Names.seq_no (num seq_no) txn)
    add_missing count (suc seq_no) txns (if ltb count seq_no then suc i else i)

  unfoldable pub add_txns_to_graph_if_needed : Exec (NodeState p db l) ℕ
  unfolding add_missing count_txns
  add_txns_to_graph_if_needed = do
    count ← gets (λ s. count_txns db s.graph)
    txns ← gets (λ s. l.entries s.log)
    add_missing count 1 txns 0
