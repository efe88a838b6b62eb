-- ===== src/Node/Tests.antt =====
-- The theorems on the node at a node with one steward.
use sovrin.Prelude.{
  ℕ, List, ◌++◌, Bool-cases, ◌==◌, inl, inr, false, String, ◌≡◌, ◌↔◌, ◌⊎◌, refl, true, false, some,
  [], ◌∷◌, String-Eq,
}
use sovrin.Python.Dict.{lookup, insert, contains, update, erase}
use sovrin.Python.Value.{Object, str, get}
use sovrin.Python.Result.{ok}
use sovrin.Txn.Names
use sovrin.Signing.{Request}
use sovrin.Graph.Memory.{memory, one_steward, empty}
use sovrin.Graph.Nyms.{
  add_nym, add_nym_edge, add_nym_txn_to_graph, edge_updates, try_add_nym, update_txn_id_edge,
  get_nym, has_nym, get_role, get_sponsor_for,
}
use sovrin.Node.Env.{reply, State}
use sovrin.Node.Checks.{check_valid_sovrin_operation, check_request_authorized}
use sovrin.Node.Checks.Validity.{IsValidOperation, check_valid_sovrin_operation-ok}
use sovrin.Node.Checks.Authority.{
  MayAdd, check_request_authorized-nym, check_request_authorized-attrib,
}
use sovrin.Node.Execution.{
  send_reply_to_client, store_txn_in_graph, store_txn_in_ledger, generate_reply, ledger_entry,
  store_txn_and_send_to_client, is_known_nym, do_custom_action,
}
use sovrin.Node.Execution.Effects.{do_custom_action-entries}
use sovrin.Node.Execution.Synced.{IsSynced, do_custom_action-IsSynced}
use sovrin.Node.Execution.Answers.{Answered, do_custom_action-answers}
use sovrin.Node.Startup.{add_missing, add_txns_to_graph_if_needed}
use sovrin.Node.Startup.Recovery.{add_txns_to_graph_if_needed-recovers}
use sovrin.Node.Startup.Restart.{execute_all, restart-same_roles}
use sovrin.Node.Startup.Once.{execute_all-known_nym}
use sovrin.Graph.Registry.{registry, replay, no_nyms}
use sovrin.Graph.Count.{count_txns, add_to_set}
use sovrin.Node.Samples.{
  plain, list_ledger, waiting, request_of, new_sponsor, known_nym, own_attribute,
}

new_sponsor_type : lookup Names.txn_type new_sponsor ≡ some (str Names.nym)
unfolding lookup
new_sponsor_type = refl

check_valid_sovrin_operation-ok_example :
    (check_valid_sovrin_operation plain memory new_sponsor one_steward ≡ ok tt)
    ↔ IsValidOperation plain memory new_sponsor one_steward (str Names.nym) new_sponsor_type
check_valid_sovrin_operation-ok_example =
    check_valid_sovrin_operation-ok plain memory new_sponsor one_steward (str Names.nym)
      new_sponsor_type

check_request_authorized-nym_example :
    (check_request_authorized plain memory (request_of new_sponsor) one_steward ≡ ok tt)
    ↔ MayAdd (str Names.steward) (str Names.sponsor)
unfolding lookup get get_role get_nym
check_request_authorized-nym_example =
    check_request_authorized-nym plain memory (request_of new_sponsor) one_steward
      (str Names.steward) refl refl

check_request_authorized-attrib_example :
    (check_request_authorized plain memory (request_of own_attribute) one_steward ≡ ok tt) ↔ (
      (true ≡ false)
      ⊎ ((str "Steward1" ≡ str "Steward1")
          ⊎ (get_sponsor_for memory (str "Steward1") one_steward ≡ str "Steward1")))
unfolding lookup get get_role get_nym
check_request_authorized-attrib_example =
    check_request_authorized-attrib plain memory (request_of own_attribute) one_steward
      (str Names.steward) refl "Steward1" refl refl

abbrev later_requests : List (ℕ × Request)
later_requests = (1, request_of new_sponsor) ∷ []

execute_all-known_nym_example :
    let a =
      execute_all plain memory list_ledger ((0, request_of known_nym) ∷ later_requests) waiting in
    let b = execute_all plain memory list_ledger later_requests waiting in
    (a.log ≡ b.log) × (a.graph ≡ b.graph)
unfolding lookup get has_nym get_nym
execute_all-known_nym_example =
    execute_all-known_nym plain memory list_ledger ((0, request_of known_nym) ∷ later_requests)
      waiting "Steward1" refl

do_custom_action-entries_example :
    (do_custom_action plain memory list_ledger 0 (request_of new_sponsor) waiting).1.log
    ≡ generate_reply plain 0 (request_of new_sponsor) ∷ []
unfolding lookup get has_nym get_nym is_known_nym ledger_entry generate_reply insert update
do_custom_action-entries_example =
    do_custom_action-entries plain memory list_ledger 0 (request_of new_sponsor) waiting refl

abbrev steward_txn : Object
steward_txn =
    (Names.txn_type, str Names.nym)
    ∷ (Names.target_nym, str "Steward1")
    ∷ (Names.role, str Names.steward)
    ∷ (Names.txn_id, str "6b86")
    ∷ []

-- the steward's transaction is on the ledger
abbrev logged : State memory list_ledger
logged = record waiting { log = steward_txn ∷ [] }

logged-IsSynced : IsSynced plain memory list_ledger logged
unfolding replay lookup get
logged-IsSynced n = elim (Bool-cases ("Steward1" == n)) [
  | inl same ↦ rw same
  | inr other ↦ rw other
]

do_custom_action-IsSynced_example :
    IsSynced plain memory list_ledger
      (do_custom_action plain memory list_ledger 0 (request_of new_sponsor) logged).1
do_custom_action-IsSynced_example =
    do_custom_action-IsSynced plain memory list_ledger 0 (request_of new_sponsor) logged
      logged-IsSynced

do_custom_action-answers_example :
    Answered plain memory list_ledger
      ("Steward1", 7)
      "client"
      (reply (
        update
          (generate_reply plain 0 (request_of new_sponsor))
          (list_ledger.append (generate_reply plain 0 (request_of new_sponsor)) logged.log).0))
      logged
      (do_custom_action plain memory list_ledger 0 (request_of new_sponsor) logged).1
unfolding lookup get has_nym get_nym is_known_nym ledger_entry generate_reply insert update
do_custom_action-answers_example =
    do_custom_action-answers plain memory list_ledger 0 (request_of new_sponsor) "Steward1" "client"
      logged refl refl false (str Names.nym) (generate_reply plain 0 (request_of new_sponsor)) refl
      refl refl

-- the node of `logged` with an empty graph
abbrev cleared : State memory list_ledger
cleared = record logged { graph = empty }

add_txns_to_graph_if_needed-recovers_example :
    let (r, s') = add_txns_to_graph_if_needed plain memory list_ledger cleared in
    (s'.log ≡ steward_txn ∷ [])
    × ((done left : List Object) × (steward_txn ∷ [] ≡ done ++ left)
        × ((n : String) → registry memory s'.graph n ≡ replay done no_nyms n))
    × ((i : ℕ) → r ≡ ok i → IsSynced plain memory list_ledger s' × (i ≡ 1))
unfolding count_txns add_to_set
add_txns_to_graph_if_needed-recovers_example =
    add_txns_to_graph_if_needed-recovers plain memory list_ledger cleared refl refl

abbrev ordered : List (ℕ × Request)
ordered = (0, request_of new_sponsor) ∷ []

restarted :
    (add_txns_to_graph_if_needed plain memory list_ledger
      (record (execute_all plain memory list_ledger ordered logged) { graph = empty })).0
    ≡ ok 2
unfolding count_txns add_to_set add_txns_to_graph_if_needed do_custom_action is_known_nym lookup
    has_nym add_nym add_nym_edge add_nym_txn_to_graph edge_updates get_nym try_add_nym
    update_txn_id_edge generate_reply ledger_entry send_reply_to_client store_txn_and_send_to_client
    store_txn_in_graph store_txn_in_ledger add_missing erase insert update get contains
restarted = refl

restart-same_roles_example :
    let before = execute_all plain memory list_ledger ordered logged in
    let (r, after) =
      add_txns_to_graph_if_needed plain memory list_ledger (record before { graph = empty }) in
    registry memory after.graph "Alice" ≡ registry memory before.graph "Alice"
unfolding count_txns add_to_set
restart-same_roles_example =
    restart-same_roles plain memory list_ledger ordered logged empty 2 logged-IsSynced refl refl
      restarted "Alice"
