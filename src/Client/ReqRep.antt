-- ===== src/Client/ReqRep.antt =====
-- sovrin/persistence/client_req_rep_store_orientdb.py: a client's requests with what the nodes
-- answered to them, and the last transaction that it knows of each identifier. OrientDB is an
-- interface: the class of requests is a table, the class of last transactions has a unique index,
-- and a command changes the records whose request number it names.
pub mod Confirmed
mod Tests
use sovrin.Prelude.{
  ℕ, String, ◌≡◌, Bool, true, false, Option, none, some, List, [], ◌∷◌, ◌++◌, map, any, find,
  length, if◌then◌else◌, nat_eq, leb, String-Eq, ◌==◌,
}
use sovrin.Python.Dict.{Dict, lookup, insert, values}
use sovrin.Python.Value.{Value, null, bool, num, str, Object, get, truthy}
use sovrin.Python.Result.{Result, ok, err, index_error}
use sovrin.Python.Exec.{Exec, pure, lift, gets, modify, ◌>>=◌, ◌>>◌}
use sovrin.Txn.Names
use sovrin.Graph.Replies.{item}

-- the properties of `createReqDataClass`
pub record ReqData : Type 0 where
  pub req_id : ℕ
  pub identifier : Value
  pub txn_type : Value
  pub txn_id : Value
  pub txn_time : Value
  pub acks : List String
  pub nacks : Dict String String
  pub replies : Dict String String
  pub has_consensus : Value

abbrev pub change_if : ℕ → (ReqData → ReqData) → ReqData → ReqData
change_if n f r = if nat_eq r.req_id n then f r else r

pub record ReqDb : Type 1 where
  pub Store : Type 0
  pub rows : Store → List ReqData
  pub last_txns : Store → Dict String Value
  -- `insert into`, `update … where reqId = n`, and `update … upsert`
  pub insert_row : ReqData → Store → Store
  pub update_rows : ℕ → (ReqData → ReqData) → Store → Store
  pub upsert_last : String → Value → Store → Store
  pub rows-insert_row : (r : ReqData) (s : Store) → rows (insert_row r s) ≡ rows s ++ r ∷ []
  pub rows-update_rows :
      (n : ℕ) (f : ReqData → ReqData) (s : Store)
      → rows (update_rows n f s) ≡ map (change_if n f) (rows s)
  pub last_txns-upsert_last :
      (i : String) (v : Value) (s : Store)
      → last_txns (upsert_last i v s) ≡ insert i v (last_txns s)

-- The transaction serializer, and plenum's count of equal replies.
pub record Replying : Type 0 where
  pub serialize : Object → String
  pub deserialize : String → Object
  pub max_failures : ℕ → ℕ
  pub more_than_f_same : List Object → ℕ → Value

abbrev new_row : ℕ → (identifier type : Value) → ReqData
new_row n i type = record {
  req_id = n;
  identifier = i;
  txn_type = type;
  txn_id = null;
  txn_time = null;
  acks = [];
  nacks = [];
  replies = [];
  has_consensus = null;
}

abbrev max : ℕ → ℕ → ℕ
max a b = if leb a b then b else a

-- `max(reqId)` of a query over the records, 0 without records
unfoldable pub last_id : List ReqData → ℕ
last_id [] = 0
last_id (r ∷ rs) = max r.req_id (last_id rs)

abbrev add_to_acks : String → List String → List String
add_to_acks a as_ = if any (λ (b : String). b == a) as_ then as_ else as_ ++ a ∷ []

module _ (c : Replying) (db : ReqDb) where
  open db use {Store, rows}

  -- the record of a request: its first one
  abbrev pub row : ℕ → Store → Option ReqData
  row n s = find (λ (r : ReqData). nat_eq r.req_id n) (rows s)

  -- `lastReqId`
  unfoldable pub last_req_id : Store → ℕ
  unfolding last_id
  last_req_id s = last_id (rows s)

  -- `addRequest`, of a request with its operation
  unfoldable pub add_request : (req_id : ℕ) → (identifier : Value) → Object → Exec Store Unit
  add_request n i operation = do
    type ← lift (item Names.txn_type operation)
    modify (db.insert_row (new_row n i type))

  unfoldable pub add_ack : ℕ → (sender : String) → Store → Store
  add_ack n sender = db.update_rows n (λ r. record r { acks = add_to_acks sender r.acks })

  unfoldable pub add_nack : ℕ → (sender reason : String) → Store → Store
  unfolding insert
  add_nack n sender reason =
      db.update_rows n (λ r. record r { nacks = insert sender reason r.nacks })

  abbrev pub with_reply : (sender text : String) → ReqData → ReqData
  with_reply sender text r = record r { replies = insert sender text r.replies }

  abbrev pub with_txn : (id time type : Value) → ReqData → ReqData
  with_txn id time type r = record r { txn_id = id; txn_time = time; txn_type = type }

  abbrev needed : Option ReqData → Result ReqData
  needed none = err index_error
  needed (some r) = ok r

  -- `addReply`, which returns the number of replies; the first one gives the request its
  -- transaction
  unfoldable pub add_reply : ℕ → (sender : String) → Object → Exec Store ℕ
  unfolding insert
  add_reply n sender result = do
    id ← lift (item Names.txn_id result)
    modify (db.update_rows n (with_reply sender (c.serialize result)))
    found ← gets (row n)
    r ← lift (needed found)
    if nat_eq (length r.replies) 1
        then (do
          type ← lift (item Names.txn_type result)
          modify (db.update_rows n (with_txn id (get Names.txn_time result) type)))
        else pure tt
    pure (length r.replies)

  abbrev id_of : Option ReqData → Value
  id_of none = null
  id_of (some r) = r.txn_id

  unfoldable pub request_confirmed : ℕ → Store → Bool
  request_confirmed n s = truthy (id_of (row n s))

  abbrev is_found : Option ReqData → Bool
  is_found none = false
  is_found (some r) = true

  unfoldable pub has_request : ℕ → Store → Bool
  has_request n s = is_found (row n s)

  abbrev replies_of : Option ReqData → Dict String String
  replies_of none = []
  replies_of (some r) = r.replies

  -- `getReplies`
  unfoldable pub get_replies : ℕ → Store → Dict String Object
  get_replies n s = map (λ (e : String × String). (e.0, c.deserialize e.1)) (replies_of (row n s))

  abbrev acks_of : Option ReqData → List String
  acks_of none = []
  acks_of (some r) = r.acks

  unfoldable pub get_acks : ℕ → Store → List String
  get_acks n s = acks_of (row n s)

  abbrev nacks_of : Option ReqData → Dict String String
  nacks_of none = []
  nacks_of (some r) = r.nacks

  unfoldable pub get_nacks : ℕ → Store → Dict String String
  get_nacks n s = nacks_of (row n s)

  unfoldable pub set_consensus : ℕ → Store → Store
  set_consensus n = db.update_rows n (λ r. record r { has_consensus = bool true })

  abbrev marked : Option ReqData → Bool
  marked none = false
  marked (some r) = truthy r.has_consensus

  -- `hasConsensus`
  unfoldable pub has_consensus : ℕ → Store → Value
  unfolding get_replies
  has_consensus n s =
      if marked (row n s)
      then (let replies = values (get_replies n s) in
          c.more_than_f_same replies (c.max_failures (length replies)))
      else bool false

  unfoldable pub upsert_last_txn : (identifier : String) → Value → Store → Store
  upsert_last_txn i v = db.upsert_last i v

  unfoldable pub select_last_txn : (identifier : String) → Store → Option Value
  unfolding lookup
  select_last_txn i s = lookup i (db.last_txns s)
