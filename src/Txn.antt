-- ===== src/Txn.antt =====
-- sovrin/common/txn.py: the tables of transaction types and keys, the roles, and the builders of
-- client operations. The names of the wire format are in `Names`.
pub mod Names
pub mod Genesis
use sovrin.Prelude.{
  String, Bool, true, false, List, [], ◌∷◌, ◌++◌, any, if◌then◌else◌, String-Eq, ◌||◌,
}
use sovrin.Python.Dict.{insert}
use sovrin.Python.Value.{Value, str, obj, Object, of_dict, truthy, is_str}
use sovrin.Txn.Names

abbrev pub all_op_keys : List String
all_op_keys =
    Names.txn_type ∷ Names.target_nym ∷ Names.origin ∷ Names.role ∷ Names.data_key ∷ Names.nonce
    ∷ Names.reference ∷ Names.raw ∷ Names.enc ∷ Names.hash ∷ Names.alias ∷ []

abbrev pub req_op_keys : List String
req_op_keys = Names.txn_type ∷ []

-- The types that sovrin itself knows; those of the pool, `POOL_TXN_TYPES`, come from plenum.
abbrev pub sovrin_txn_types : List String
sovrin_txn_types =
    Names.nym ∷ Names.attrib ∷ Names.idproof ∷ Names.assign_agent ∷ Names.disclo ∷ Names.get_attr
    ∷ Names.get_nym ∷ Names.get_txns ∷ Names.cred_def ∷ Names.get_cred_def ∷ Names.issuer_key
    ∷ Names.get_issuer_key ∷ []

-- The keys of `getTxnOrderedFields`, those of a transaction that the ledger's serializer keeps.
abbrev pub txn_ordered_fields : List String
txn_ordered_fields =
    Names.identifier ∷ Names.req_id ∷ Names.txn_id ∷ Names.txn_time ∷ Names.txn_type
    ∷ Names.target_nym ∷ Names.data_key ∷ Names.alias ∷ Names.raw ∷ Names.enc ∷ Names.hash
    ∷ Names.role ∷ Names.reference ∷ []

-- `v in names`, for names that are strings
abbrev pub is_one_of : List String → Value → Bool
is_one_of names v = any (is_str v) names

abbrev pub is_valid_txn_type : List String → Value → Bool
is_valid_txn_type pool_txn_types v = is_one_of (sovrin_txn_types ++ pool_txn_types) v

abbrev pub is_valid_role : Value → Bool
is_valid_role = is_one_of (Names.steward ∷ Names.sponsor ∷ Names.user ∷ [])

abbrev set_if : String → Value → Object → Object
set_if k v d = if truthy v then insert k v d else d

unfoldable pub new_txn : String → (target data_value enc raw hash role : Value) → Object
unfolding insert
new_txn type target data_value enc raw hash role =
    let a = (Names.txn_type, str type) ∷ [] in
    let b = set_if Names.target_nym target a in
    let c = set_if Names.data_key data_value b in
    let d = set_if Names.enc enc c in
    let e = set_if Names.raw raw d in let f = set_if Names.hash hash e in set_if Names.role role f

abbrev null : Value
null = Value.null

unfoldable pub add_nym : (target role : Value) → Object
unfolding new_txn
add_nym target role = new_txn Names.nym target null null null null role

unfoldable pub add_attr : (target attr_data role : Value) → Object
unfolding new_txn
add_attr target attr_data role = new_txn Names.attrib target null attr_data null null role

-- `json.dumps` is the argument `dumps`.
unfoldable pub get_attr : (Value → String) → (target attr_name role : Value) → Object
unfolding new_txn
get_attr dumps target attr_name role =
    let query = str (dumps (obj (of_dict ((Names.name, attr_name) ∷ [])))) in
    new_txn Names.get_attr target query null null null role
