-- ===== src/Node/Startup/Recovery.antt =====
-- A graph that is built again from the ledger has the roles of the ledger's transactions.
use sovrin.Prelude.{
  ℕ, suc, ◌+◌, String, ◌≡◌, refl, true, List, [], ◌∷◌, ◌++◌, length, arith, ltb, ◌∙◌, sym, ap, inl,
  inr, String-Eq,
}
use mathlib.Core.List.{append-nil}
use sovrin.Python.Dict.{insert}
use sovrin.Python.Value.{num, Object}
use sovrin.Python.Result.{Result, ok}
use sovrin.Txn.Names
use sovrin.Graph.Db.{OrientDb, Vertex, VertexClass}
use sovrin.Graph.Count.{count_txns}
use sovrin.Graph.Registry.{Registry, no_nyms, apply_txn, replay, registry, roles_in}
use sovrin.Node.Env.{Plenum, Ledger}
use sovrin.Node.Execution.{NodeState, store_txn_in_graph}
use sovrin.Node.Execution.Effects.{Result-cases, log-store_txn_in_graph}
use sovrin.Node.Execution.Synced.{IsSynced, apply_txn-at, store_txn_in_graph-refines}
use sovrin.Node.Startup.{add_missing, add_txns_to_graph_if_needed}

-- The registry after a list of transactions depends, at a nym, on the registry there.
replay-at :
    (ts : List Object) (reg reg' : Registry) (n : String)
    → reg n ≡ reg' n
    → replay ts reg n ≡ replay ts reg' n
unfolding replay
replay-at [] reg reg' n e = e
replay-at (t ∷ ts) reg reg' n e =
    replay-at ts (apply_txn t reg) (apply_txn t reg') n (apply_txn-at t reg reg' n e)

replay-cons :
    (t : Object) (ts : List Object) (reg : Registry) (n : String)
    → replay (t ∷ ts) reg n ≡ replay ts (apply_txn t reg) n
unfolding replay
replay-cons t ts reg n = refl

replay-nil : (reg : Registry) (n : String) → replay [] reg n ≡ reg n
unfolding replay
replay-nil reg n = refl

is_new : (k : ℕ) → ltb 0 (suc k) ≡ true
is_new k = ground arith

module _ (p : Plenum) (db : OrientDb) (l : Ledger) where
  -- What adding the transactions `ts` has done: it has gone through some of them from the start,
  -- and through all of them if it returns.
  pub record Added (ts : List Object) (reg : Registry) (i : ℕ) (r : Result ℕ) (t : db.Store)
      : Type 0 where
    pub done : List Object
    pub left : List Object
    pub split : ts ≡ done ++ left
    pub roles : (n : String) → registry db t n ≡ replay done reg n
    pub all : (k : ℕ) → r ≡ ok k → (left ≡ []) × (k ≡ i + length ts)

  add_missing-Added :
      (k i : ℕ) (ts : List Object) (s : NodeState p db l)
      → let (r, s') = add_missing p db l 0 (suc k) ts i s in
        Added ts (registry db s.graph) i r s'.graph × (s'.log ≡ s.log)
  unfolding add_missing
  add_missing-Added k i [] s = (
    record {
      done = [];
      left = [];
      split = refl;
      roles = λ n. sym (replay-nil (registry db s.graph) n);
      all = λ j h. (refl, ground arith);
    },
    refl,
  )
  add_missing-Added k i (t ∷ ts) s =
      let m = store_txn_in_graph p db l (insert Names.seq_no (num (suc k)) t) s in
      let same_log = log-store_txn_in_graph p db l (insert Names.seq_no (num (suc k)) t) s in
      let one = store_txn_in_graph-refines p db l (num (suc k)) t s in
      elim (Result-cases m.0) [
        | inr (e, raised) ↦ rw (is_new k) (
            rw raised (
              record {
                done = t ∷ [];
                left = ts;
                split = refl;
                roles = λ n.
                    one n
                    ∙ sym (replay-nil (apply_txn t (registry db s.graph)) n)
                    ∙ sym (replay-cons t [] (registry db s.graph) n);
                all = λ j h. ground arith;
              },
              same_log,
            ))
        | inl (u, returned) ↦
            let ih = add_missing-Added (suc k) (suc i) ts m.1 in
            rw (is_new k) (
              rw returned (
                record {
                  done = t ∷ ih.0.done;
                  left = ih.0.left;
                  split = ap (λ (r : List Object). t ∷ r) ih.0.split;
                  roles = λ n.
                      ih.0.roles n
                      ∙ replay-at ih.0.done (registry db m.1.graph)
                          (apply_txn t (registry db s.graph)) n (one n)
                      ∙ sym (replay-cons t ih.0.done (registry db s.graph) n);
                  all = λ j h. ((ih.0.all j h).0, (ih.0.all j h).1 ∙ omega arith);
                },
                ih.1 ∙ same_log,
              ))
      ]

  -- A node that starts with an empty graph goes through the transactions of its ledger from the
  -- first, and gives the graph the roles that those it went through give the nyms. If it returns, it
  -- went through all of them: the graph agrees with the ledger again. The ledger stays.
  pub add_txns_to_graph_if_needed-recovers :
      (s : NodeState p db l)
      → db.vertices VertexClass.nym s.graph ≡ []
      → count_txns db s.graph ≡ 0
      → let (r, s') = add_txns_to_graph_if_needed p db l s in
        (s'.log ≡ s.log)
        × ((done left : List Object) × (l.entries s.log ≡ done ++ left)
            × ((n : String) → registry db s'.graph n ≡ replay done no_nyms n))
        × ((i : ℕ) → r ≡ ok i → IsSynced p db l s' × (i ≡ length (l.entries s.log)))
  unfolding add_txns_to_graph_if_needed
  add_txns_to_graph_if_needed-recovers s bare none_counted =
      let (a, same_log) = add_missing-Added 0 0 (l.entries s.log) s in
      let t = (add_missing p db l 0 1 (l.entries s.log) 0 s).1 in
      let agreed : (n : String) → registry db t.graph n ≡ replay a.done no_nyms n = λ n.
        a.roles n
        ∙ replay-at a.done (registry db s.graph) no_nyms n
            (ap (λ (vs : List Vertex). roles_in vs n) bare) in
      rw none_counted (
        same_log,
        (a.done, a.left, a.split, agreed),
        λ i h. (
          λ n.
              agreed n
              ∙ ap (λ (es : List Object). replay es no_nyms n)
                  (whole a.done a.left (l.entries (t.log)) (a.all i h).0
                    (ap l.entries same_log ∙ a.split)),
          (a.all i h).1 ∙ omega arith,
        ),
      )
    where
      whole : (done left es : List Object) → left ≡ [] → es ≡ done ++ left → done ≡ es
      whole done left es e f = sym (f ∙ ap (λ (r : List Object). done ++ r) e ∙ append-nil done)
