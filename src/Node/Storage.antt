-- ===== src/Node/Storage.antt =====
-- sovrin/persistence/secondary_storage.py: the transactions of the graph with the merkle
-- information that the ledger keeps for their numbers. Its other methods pass their arguments on to
-- the identity graph.
use sovrin.Prelude.{Bool, Option, none, some, List, [], ◌∷◌, String-Eq}
use sovrin.Python.Dict.{Dict, update}
use sovrin.Python.Value.{Value, Object, get, is_str}
use sovrin.Python.Result.{Result, ok, ◌>>=◌}
use sovrin.Txn.Names
use sovrin.Graph.Db.{OrientDb}
use sovrin.Graph.Replies.{Reader, item, get_txn, get_result_for_txn_ids}
use sovrin.Node.Env.{Ledger}

-- `isAddNymTxn`
unfoldable pub is_add_nym_txn : Object → Result Bool
is_add_nym_txn result = do type ← item Names.txn_type result; ok (is_str type Names.nym)

-- `merkle` is `merkleInfo` of the ledger
module _ (q : Reader) (db : OrientDb) (l : Ledger) (merkle : l.Log → Value → Result Object) where
  abbrev with_merkle : l.Log → Value → Object → Result Object
  with_merkle log n txn = do info ← merkle log n; ok (update txn info)

  abbrev some_reply : l.Log → Option Object → Result (Option Object)
  some_reply log none = ok none
  some_reply log (some []) = ok none
  some_reply log (some (e ∷ txn)) = do
    whole ← with_merkle log (get Names.seq_no (e ∷ txn)) (e ∷ txn)
    ok (some whole)

  -- `getReply`; an empty transaction counts as none
  unfoldable pub get_reply :
      (identifier req_id type : Value) → db.Store → l.Log → Result (Option Object)
  unfolding get_txn update
  get_reply i r type s log = do txn ← get_txn q db i r type s; some_reply log txn

  unfoldable pub complete : l.Log → Dict Value Object → Result (Dict Value Object)
  unfolding update
  complete log [] = ok []
  complete log ((n, txn) ∷ d) = do
    whole ← with_merkle log n txn
    rest ← complete log d
    ok ((n, whole) ∷ rest)

  -- `getReplies`
  unfoldable pub get_replies :
      (ids : List Value) → (since : Value) → db.Store → l.Log → Result (Dict Value Object)
  unfolding get_result_for_txn_ids complete
  get_replies ids since s log = do
    found ← get_result_for_txn_ids q db ids since s
    complete log found
