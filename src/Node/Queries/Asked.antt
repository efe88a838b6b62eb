-- ===== src/Node/Queries/Asked.antt =====
-- Which transactions `processGetTxnReq` of sovrin/server/node.py sends, and in what order.
use sovrin.Prelude.{ℕ, String, Option, none, some, List, [], ◌∷◌, if◌then◌else◌, leb, String-Eq}
use sovrin.Python.Dict.{values}
use sovrin.Python.Value.{Value, num, str, obj, Object, get, is_str, of_dict}
use sovrin.Python.Value.Equality.{Value-Eq}
use sovrin.Python.Result.{Result, ok, err, type_error, ◌>>=◌}
use sovrin.Txn.Names
use sovrin.Signing.{Request}
use sovrin.Graph.Db.{OrientDb}
use sovrin.Graph.Nyms.{get_add_nym_txn}
use sovrin.Graph.Attributes.Queries.{get_add_attribute_txn_ids}
use sovrin.Graph.Replies.{Reader, item}
use sovrin.Node.Env.{Plenum, Ledger}
use sovrin.Node.Execution.{NodeState}
use sovrin.Node.Storage.{get_replies}

-- `d[k]`, where `d` may be `None`
abbrev field_of : String → Option Object → Result Value
field_of k none = err type_error
field_of k (some d) = item k d

-- `sorted(…, key=itemgetter(F.seqNo.name))`, on the pairs of a key and its transaction
abbrev pub Keyed : Type 0
Keyed = List (ℕ × Object)

unfoldable pub insert_by_seq_no : ℕ → Object → Keyed → Keyed
insert_by_seq_no n o [] = (n, o) ∷ []
insert_by_seq_no n o ((m, t) ∷ ts) =
    let rest = insert_by_seq_no n o ts in if leb n m then (n, o) ∷ (m, t) ∷ ts else (m, t) ∷ rest

abbrev number_of : Value → Result ℕ
number_of (num n) = ok n
number_of v = err type_error

unfoldable pub sort_by_seq_no : List Object → Result Keyed
unfolding insert_by_seq_no
sort_by_seq_no [] = ok []
sort_by_seq_no (o ∷ os) = do
  v ← item Names.seq_no o
  n ← number_of v
  rest ← sort_by_seq_no os
  ok (insert_by_seq_no n o rest)

-- `str(txns[-1][F.seqNo.name]) if len(txns) > 0 else data`
unfoldable pub last_of : (Value → String) → Value → Keyed → Value
last_of to_str data_ [] = data_
last_of to_str data_ ((n, o) ∷ []) = str (to_str (num n))
last_of to_str data_ (t ∷ u ∷ ts) = last_of to_str data_ (u ∷ ts)

abbrev pub keyed_txn : ℕ × Object → Value
keyed_txn (n, o) = obj (of_dict o)

module _ (p : Plenum) (q : Reader) (db : OrientDb) (l : Ledger)
    (merkle : l.Log → Value → Result Object) where
  -- the ids of the transactions that are sent: those that added the nym and its attributes, and
  -- that of its sponsor before them if it is a user
  unfoldable pub ids_about : Value → db.Store → Result (List Value)
  ids_about origin s = do
    added ← get_add_nym_txn db origin s
    id ← field_of Names.txn_id added
    let ids = id ∷ get_add_attribute_txn_ids db origin s
    added_as ← with_role added
    if is_str (get Names.role added_as) Names.user
        then (do
          sponsor ← get_add_nym_txn db (get Names.identifier added_as) s
          sponsor_id ← field_of Names.txn_id sponsor
          ok (sponsor_id ∷ ids))
        else ok ids
    where
      with_role : Option Object → Result Object
      with_role none = err type_error
      with_role (some d) = ok d

  abbrev pub txns_for : Request → NodeState p db l → Result Keyed
  txns_for r s = do
    ids ← ids_about r.identifier s.graph
    found ← get_replies q db l merkle ids (get Names.data_key r.operation) s.graph s.log
    sort_by_seq_no (values found)
