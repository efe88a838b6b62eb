-- ===== src/Graph/Count.antt =====
-- `countTxns` of sovrin/persistence/identity_graph.py: the number of different sequence numbers
-- in the graph. OrientDB's `distinct` leaves out records without one.
use sovrin.Prelude.{
  ℕ, Bool, false, List, [], ◌∷◌, ◌++◌, any, length, map, if◌then◌else◌, nat_eq, str_eq,
}
use sovrin.Python.Value.{Value, num, str, get}
use sovrin.Txn.Names
use sovrin.Graph.Db.{OrientDb, Vertex, Edge, VertexClass, EdgeClass}
use sovrin.Graph.Nyms.{is_null}

-- `==` on sequence numbers, which are numbers or texts
abbrev same_number : Value → Value → Bool
same_number (num n) (num m) = nat_eq n m
same_number (str s) (str t) = str_eq s t
same_number _ _ = false

-- `set.update`, a set being a list of different values
unfoldable pub add_to_set : List Value → List Value → List Value
add_to_set [] seen = seen
add_to_set (v ∷ vs) seen =
    add_to_set vs
      (if is_null v then seen else if any (same_number v) seen then seen else seen ++ v ∷ [])

-- `txnEdges.values()`
abbrev pub txn_edges : List EdgeClass
txn_edges =
    EdgeClass.adds_nym ∷ EdgeClass.adds_attribute ∷ EdgeClass.adds_cred_def
    ∷ EdgeClass.has_issuer_key ∷ []

module _ (db : OrientDb) where
  abbrev edge_numbers : List EdgeClass → db.Store → List Value → List Value
  edge_numbers [] s seen = seen
  edge_numbers (c ∷ cs) s seen =
      edge_numbers cs s
        (add_to_set (map (λ (e : Edge). get Names.seq_no e.props) (db.edges c s)) seen)

  unfoldable pub count_txns : db.Store → ℕ
  unfolding add_to_set
  count_txns s = length (
      add_to_set (map (λ (v : Vertex). get Names.seq_no v.props) (db.vertices VertexClass.nym s))
        (edge_numbers txn_edges s []))
