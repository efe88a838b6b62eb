-- ===== src/Node/Queries/Tests.antt =====
-- The theorems on queries at a node with one steward.
use sovrin.Prelude.{String, ◌≡◌, refl, true, some, List, [], ◌∷◌, any, map, String-Eq}
use sovrin.Python.Dict.{lookup}
use sovrin.Python.Value.{str, Object}
use sovrin.Python.Exec.{Exec, pure}
use sovrin.Txn.Names
use sovrin.Signing.{Request}
use sovrin.Graph.Memory.{memory}
use sovrin.Graph.Replies.Tests.{plain_reader}
use sovrin.Node.Env.{Message, State}
use sovrin.Node.Samples.{plain, list_ledger, waiting, request_of, list_merkle}
use sovrin.Node.Queries.Readonly.{Answers}
use sovrin.Node.Queries.Dispatch.{process_request}
use sovrin.Node.Queries.Private.{is_reply, process_request-private}
use sovrin.Node.Queries.Answering.{process_request-is_readonly}

-- plenum's part, for the tests
abbrev plenum_request : Request → String → Exec (State memory list_ledger) Unit
plenum_request r frm = pure tt

abbrev others_txns : Object
others_txns = (Names.txn_type, str Names.get_txns) ∷ (Names.target_nym, str "Alice") ∷ []

abbrev own_txns : Object
own_txns = (Names.txn_type, str Names.get_txns) ∷ (Names.target_nym, str "Steward1") ∷ []

process_request-private_example :
    let r = request_of others_txns in
    let s' =
      (process_request plain plain_reader memory list_ledger list_merkle plenum_request r "client"
        waiting).1 in
    (ms : List Message) × (s'.sent ≡ map (λ (m : Message). ("client", m)) ms)
    × (any is_reply ms ≡ true → lookup Names.target_nym others_txns ≡ some (str "Steward1"))
unfolding lookup
process_request-private_example =
    process_request-private plain plain_reader memory list_ledger list_merkle plenum_request
      (request_of others_txns) "client" waiting refl

process_request-is_readonly_example :
    Answers plain memory list_ledger "client" waiting
      (process_request plain plain_reader memory list_ledger list_merkle plenum_request
        (request_of own_txns)
        "client"
        waiting).1
unfolding lookup
process_request-is_readonly_example =
    process_request-is_readonly plain plain_reader memory list_ledger list_merkle plenum_request
      "client" (request_of own_txns) (str Names.get_txns) waiting refl refl
