-- ===== src/Graph/Tests.antt =====
-- The theorems on nyms at a graph with one steward, in the memory database.
use sovrin.Prelude.{◌≡◌, refl, true, some, [], ◌∷◌, arith, eq_iff}
use sovrin.Python.Value.{Value, str, num, Object, get}
use sovrin.Python.Dict.{lookup}
use sovrin.Python.Result.{Exc, Result, ok}
use sovrin.Txn.Names
use sovrin.Graph.Db.{Vertex}
use sovrin.Graph.Memory.{memory, steward_props, one_steward}
use sovrin.Graph.Nyms.{
  get_nym, has_nym, get_role, get_sponsor_for, get_adds_nym_edge, get_edge_by_txn_id,
  add_nym_txn_to_graph,
}
use sovrin.Graph.Nyms.Sponsored.{IsAdded, add_nym_txn_to_graph-IsAdded}
use sovrin.Graph.Nyms.Frame.{add_nym_txn_to_graph-keeps_nyms}
use sovrin.Graph.Registry.{registry, enroll_txn}
use sovrin.Graph.Registry.Refines.{add_nym_txn_to_graph-refines}
use sovrin.Graph.Nyms.Refused.{add_nym_txn_to_graph-stranger}

abbrev fault : Exc → Result (Unit {0})
fault e = ok tt

abbrev steward_vertex : Vertex
steward_vertex = record { rid = 0; props = steward_props }

abbrev sponsor_txn : Object
sponsor_txn =
    (Names.txn_type, str Names.nym)
    ∷ (Names.target_nym, str "Alice")
    ∷ (Names.role, str Names.sponsor)
    ∷ (Names.txn_id, str "50c2")
    ∷ (Names.identifier, str "Steward1")
    ∷ (Names.seq_no, num 2)
    ∷ []

abbrev steward_txn : Object
steward_txn = (Names.target_nym, str "Steward1") ∷ (Names.txn_id, str "77c2") ∷ []

abbrev stranger_txn : Object
stranger_txn =
    (Names.target_nym, str "Bob")
    ∷ (Names.txn_id, str "91c2")
    ∷ (Names.identifier, str "Nobody")
    ∷ []

add_nym_txn_to_graph-IsAdded_example :
    let (r, s') = add_nym_txn_to_graph memory fault sponsor_txn one_steward in
    (r ≡ ok tt) × IsAdded memory "Alice" "Steward1" "50c2" (str Names.sponsor) s'
unfolding get lookup has_nym get_nym get_adds_nym_edge get_edge_by_txn_id
add_nym_txn_to_graph-IsAdded_example =
    add_nym_txn_to_graph-IsAdded memory fault "Alice" "Steward1" "50c2" sponsor_txn one_steward refl
      refl refl refl refl refl refl refl refl refl

add_nym_txn_to_graph-keeps_nyms_example :
    let s' = (add_nym_txn_to_graph memory fault steward_txn one_steward).1 in
    (get_nym memory (str "Steward1") s' ≡ some steward_vertex)
    × (get_role memory (str "Steward1") s' ≡ get_role memory (str "Steward1") one_steward)
unfolding get lookup get_nym
add_nym_txn_to_graph-keeps_nyms_example =
    add_nym_txn_to_graph-keeps_nyms memory fault steward_txn one_steward (str "Steward1")
      steward_vertex refl

add_nym_txn_to_graph-stranger_example :
    let (r, s') = add_nym_txn_to_graph memory fault stranger_txn one_steward in
    (r ≡ ok tt)
    × (has_nym memory (str "Bob") s' ≡ true)
    × (get_sponsor_for memory (str "Bob") s' ≡ Value.null)
unfolding get lookup has_nym get_nym get_adds_nym_edge
add_nym_txn_to_graph-stranger_example =
    add_nym_txn_to_graph-stranger memory fault "Bob" (str "91c2") stranger_txn one_steward refl refl
      refl "Nobody" refl refl (ground (arith, eq_iff "Bob" "Nobody")) refl refl refl

add_nym_txn_to_graph-refines_example :
    registry memory (add_nym_txn_to_graph memory fault sponsor_txn one_steward).1 "Alice"
    ≡ enroll_txn sponsor_txn (registry memory one_steward) "Alice"
add_nym_txn_to_graph-refines_example =
    add_nym_txn_to_graph-refines memory fault sponsor_txn one_steward "Alice"
