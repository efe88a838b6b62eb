-- ===== src/Node/Env.antt =====
-- What sovrin/server/node.py takes from elsewhere: plenum's node and helpers, the hash, JSON, and
-- the ledger, an append-only log; and the state of a node.
use sovrin.Prelude.{
  ℕ, ◌+◌, String, ◌≡◌, true, false, List, [], ◌∷◌, ◌++◌, length, Option, some, String-Eq, any, ◌==◌,
}
use sovrin.Python.Dict.{Dict, lookup, contains}
use sovrin.Python.Value.{Value, num, Object}
use sovrin.Python.Result.{Exc, Result}
use sovrin.Txn.{txn_ordered_fields}
use sovrin.Txn.Names
use sovrin.Signing.{Request}
use sovrin.Graph.Db.{OrientDb}

-- Functions of the libraries. `base_…` are the methods of plenum's `Node`.
pub record Plenum : Type 0 where
  pub sha256 : String → String
  pub json_dumps : Value → String
  pub to_str : Value → String
  pub json_loads : String → Option Value
  pub gen_txn_id : Value → ℕ → String
  pub pool_txn_types : List String
  pub fault : Exc → Result (Unit {0})
  pub error : Result (Unit {0})
  pub base_check_valid_operation : Object → Result (Unit {0})
  pub base_check_request_authorized : Request → Result (Unit {0})

-- What the merkle information of an append may hold.
abbrev pub merkle_keys : List String
merkle_keys = Names.seq_no ∷ Names.root_hash ∷ Names.audit_path ∷ []

-- The ledger package: `append` adds a transaction at the end and returns its merkle information. An
-- entry is read back as the serializer has kept it: what is under the ordered fields is the same,
-- and nothing is said about other keys.
pub record Ledger : Type 1 where
  pub Log : Type 0
  pub entries : Log → List Object
  pub append : Object → Log → Object × Log
  pub kept : Object → Object
  pub lookup-kept :
      (txn : Object) (k : String)
      → any (◌==◌ k) txn_ordered_fields ≡ true
      → lookup k (kept txn) ≡ lookup k txn
  pub entries-append :
      (txn : Object) (l : Log) → entries (append txn l).1 ≡ entries l ++ kept txn ∷ []
  pub seq_no-append :
      (txn : Object) (l : Log)
      → lookup Names.seq_no (append txn l).0 ≡ some (num (length (entries l) + 1))
  pub merkle_keys-append :
      (txn : Object) (l : Log) (k : String)
      → any (◌==◌ k) merkle_keys ≡ false
      → contains k (append txn l).0 ≡ false

-- The messages to clients.
pub data Nack : Type 0 where
  already_added own_txns_only : Nack

pub data Message : Type 0 where
  ack : ℕ → Message
  nack : ℕ → Nack → Message
  reply : Object → Message

-- A client is known by the name of its remote; a waiting request by its identifier and number.
pub record State (db : OrientDb) (l : Ledger) : Type 0 where
  pub graph : db.Store
  pub log : l.Log
  pub request_sender : Dict (String × ℕ) String
  pub sent : List (String × Message)
