-- ===== src/Signing.antt =====
-- sovrin/common/types.py and sovrin/server/client_authn.py: what a client signs and what a node
-- verifies. Both replace the data of an attribute by its hash.
pub mod Agreement
mod Tests
use sovrin.Prelude.{
  ℕ, String, ◌≡◌, true, Bool, Option, none, some, List, [], ◌∷◌, any, keep, if◌then◌else◌,
  String-Eq, ◌==◌,
}
use sovrin.Python.Dict.{lookup, insert, contains}
use sovrin.Python.Value.{Value, str, obj, Object, to_dict, of_dict, is_str, get}
use sovrin.Python.Result.{Result, ok, err, key_error, type_error, attribute_error, or_raise, ◌>>=◌}
use sovrin.Txn.Names

pub record Request : Type 0 where
  pub identifier : Value
  pub req_id : ℕ
  pub operation : Object

-- `set.pop` takes a member of the set, and which one is not specified.
pub record Pop : Type 0 where
  pub pop : List String → String
  pub pop_member : (k : String) (ks : List String) → any (◌==◌ (pop (k ∷ ks))) (k ∷ ks) ≡ true

-- `{RAW, ENC, HASH}.intersection(set(op.keys()))`
unfoldable pub data_keys : Object → List String
unfolding contains
data_keys op = keep (λ k. contains k op) (Names.raw ∷ Names.enc ∷ Names.hash ∷ [])

abbrev pub as_object : Value → Result Object
as_object (obj fs) = ok (to_dict fs)
as_object _ = err type_error

abbrev pub as_string : Value → Result String
as_string (str s) = ok s
as_string _ = err attribute_error

module _ (sha256 : String → String) where
  -- `op[keyName] = sha256(op[keyName].encode()).hexdigest()`
  unfoldable pub hash_key : String → Object → Result Object
  hash_key k op = do
    v ← or_raise key_error (lookup k op)
    s ← as_string v
    ok (insert k (str (sha256 s)) op)

  abbrev hash_popped : Pop → Object → List String → Result Object
  hash_popped p op [] = err key_error
  hash_popped p op (k ∷ ks) = hash_key (p.pop (k ∷ ks)) op

  unfoldable pub hash_attribute : Pop → Object → Result Object
  hash_attribute p op = hash_popped p op (data_keys op)

  -- The message `d` with the data of its operation replaced by the hash. The client and the node
  -- have the same text for this, each its own copy.
  unfoldable pub hash_operation : Pop → Object → Result Object
  hash_operation p d = do
    v ← or_raise key_error (lookup Names.operation d)
    op ← as_object v
    hashed ← hash_attribute p op
    ok (insert Names.operation (obj (of_dict hashed)) d)

  -- `Request.getSigningState`; `base` is that of plenum's `Request`.
  unfoldable pub get_signing_state : (Request → Object) → Pop → Request → Result Object
  get_signing_state base p r =
      if is_str (get Names.txn_type r.operation) Names.attrib
      then hash_operation p (base r)
      else ok (base r)

  -- `TxnBasedAuthNr.serializeForSig`; `serialize` is that of plenum's `NaclAuthNr`.
  unfoldable pub serialize_for_sig : (Object → String) → Pop → Object → Result String
  serialize_for_sig serialize p msg = do
    v ← or_raise key_error (lookup Names.operation msg)
    op ← as_object v
    if is_str (get Names.txn_type op) Names.attrib
        then (do m ← hash_operation p msg; ok (serialize m))
        else ok (serialize msg)
