-- ===== src/Node/Startup/Restart.antt =====
-- A node that is started again after it has executed requests.
use sovrin.Prelude.{ℕ, String, ◌≡◌, List, [], ◌∷◌, ◌∙◌, sym, ap}
use sovrin.Python.Result.{ok}
use sovrin.Signing.{Request}
use sovrin.Graph.Db.{OrientDb, VertexClass}
use sovrin.Graph.Count.{count_txns}
use sovrin.Graph.Registry.{registry, replay, no_nyms}
use sovrin.Node.Env.{Plenum, Ledger}
use sovrin.Node.Execution.{NodeState, do_custom_action}
use sovrin.Node.Execution.Synced.{IsSynced, do_custom_action-IsSynced}
use sovrin.Node.Startup.{add_txns_to_graph_if_needed}
use sovrin.Node.Startup.Recovery.{add_txns_to_graph_if_needed-recovers}

module _ (p : Plenum) (db : OrientDb) (l : Ledger) where
  -- The requests in the order in which the pool agreed on them, each with its time. Whatever a
  -- request raises, the next one is executed.
  abbrev pub execute_all : List (ℕ × Request) → NodeState p db l → NodeState p db l
  execute_all [] s = s
  execute_all ((t, r) ∷ rs) s = execute_all rs (do_custom_action p db l t r s).1

  execute_all-IsSynced :
      (rs : List (ℕ × Request)) (s : NodeState p db l)
      → IsSynced p db l s
      → IsSynced p db l (execute_all rs s)
  execute_all-IsSynced [] s h = h
  execute_all-IsSynced ((t, r) ∷ rs) s h =
      execute_all-IsSynced rs (do_custom_action p db l t r s).1
        (do_custom_action-IsSynced p db l t r s h)

  -- After any ordered requests, executed from a state in which ledger and graph agree, a start with
  -- the same ledger and an empty graph, if it returns, gives every nym the role that it had.
  pub restart-same_roles :
      (rs : List (ℕ × Request)) (s : NodeState p db l) (empty : db.Store) (i : ℕ)
      → IsSynced p db l s
      → db.vertices VertexClass.nym empty ≡ []
      → count_txns db empty ≡ 0
      → let before = execute_all rs s in
        let (r, after) = add_txns_to_graph_if_needed p db l (record before { graph = empty }) in
        r ≡ ok i → (n : String) → registry db after.graph n ≡ registry db before.graph n
  restart-same_roles rs s empty i h bare uncounted returned n =
      let before = execute_all rs s in
      let fresh = record before { graph = empty } in
      let (same_log, done, all) =
        add_txns_to_graph_if_needed-recovers p db l fresh bare uncounted in
      (all i returned).0 n
      ∙ ap (λ (log : l.Log). replay (l.entries log) no_nyms n) same_log
      ∙ sym (execute_all-IsSynced rs s h n)
