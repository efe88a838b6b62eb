-- ===== src/Graph/Replies/Tests.antt =====
-- The theorems on returned transactions at a graph with a steward and the sponsor it added.
use sovrin.Prelude.{◌≡◌, refl, false, none, [], ◌∷◌, String-Eq}
use sovrin.Python.Dict.{Dict, lookup, insert, update, contains}
use sovrin.Python.Value.{Value, num, str, Object, get}
use sovrin.Python.Value.Equality.{Value-Eq, value_eq}
use sovrin.Python.Result.{Exc, Result, ok}
use sovrin.Txn.Names
use sovrin.Graph.Memory.{Memory, memory, one_steward}
use sovrin.Graph.Nyms.{
  add_nym_txn_to_graph, try_add_nym, add_nym, add_nym_edge, update_txn_id_edge, edge_updates,
  get_nym,
}
use sovrin.Graph.Replies.{
  Reader, get_result_for_txn_ids, merge_txns, get_txns_from_edge, distinct, make_result, project,
  clean_key_names, clean_into, results_of, first_present, all_present,
}
use sovrin.Graph.Replies.Typed.{IsTyped, get_result_for_txn_ids-IsTyped}

abbrev fault : Exc → Result (Unit {0})
fault e = ok tt

abbrev pub plain_reader : Reader
plain_reader = record {
  nulls = false;
  above = λ v w. false;
  parse_int = λ s. none;
  timestamp = λ v. none;
  min_txn_time = 0;
  now = 0;
}

abbrev sponsor_txn : Object
sponsor_txn =
    (Names.txn_type, str Names.nym)
    ∷ (Names.target_nym, str "Alice")
    ∷ (Names.role, str Names.sponsor)
    ∷ (Names.txn_id, str "50c2")
    ∷ (Names.identifier, str "Steward1")
    ∷ (Names.req_id, num 7)
    ∷ (Names.seq_no, num 2)
    ∷ []

abbrev two_nyms : Memory
two_nyms = (add_nym_txn_to_graph memory fault sponsor_txn one_steward).1

-- the sponsor's transaction, as `makeResult` gives it
abbrev returned : Object
returned =
    (Names.seq_no, num 2)
    ∷ (Names.txn_type, str Names.nym)
    ∷ (Names.txn_id, str "50c2")
    ∷ (Names.req_id, num 7)
    ∷ (Names.identifier, str "Steward1")
    ∷ (Names.target_nym, str "Alice")
    ∷ (Names.role, str Names.sponsor)
    ∷ []

abbrev both : Dict Value Object
both = (num 2, returned) ∷ []

found : get_result_for_txn_ids plain_reader memory (str "50c2" ∷ []) Value.null two_nyms ≡ ok both
unfolding get_result_for_txn_ids merge_txns get_txns_from_edge results_of distinct
    add_nym_txn_to_graph try_add_nym add_nym add_nym_edge update_txn_id_edge edge_updates get_nym
    make_result project clean_key_names clean_into first_present all_present lookup insert contains
    update get value_eq
found = refl

get_result_for_txn_ids-IsTyped_example : IsTyped (str Names.nym) returned
unfolding lookup value_eq
get_result_for_txn_ids-IsTyped_example =
    get_result_for_txn_ids-IsTyped plain_reader memory (str "50c2" ∷ []) Value.null two_nyms both
      found (num 2) returned refl
