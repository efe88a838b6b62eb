-- ===== src/Graph/Attributes.antt =====
-- The attributes of sovrin/persistence/identity_graph.py: `addAttribute` and
-- `addAttribTxnToGraph`; the queries are in `Queries`.
pub mod Queries
use sovrin.Prelude.{
  ℕ, String, Bool, true, false, not, Option, none, some, List, [], ◌∷◌, any, keep, find, map,
  length, if◌then◌else◌, nat_eq, String-Eq, str_eq, ◌≡◌,
}
use mathlib.Core.List.{filter_map}
use sovrin.Python.Dict.{Dict, lookup, insert}
use sovrin.Python.Value.{Value, null, num, str, obj, Object, truthy, get, to_dict}
use sovrin.Python.Result.{
  Exc, Result, ok, err, key_error, value_error, type_error, orient_command, other, or_raise,
}
use sovrin.Python.Exec.{Exec, pure, raise, lift, gets, catching, ◌>>=◌, ◌>>◌}
use sovrin.Txn.Names
use sovrin.Graph.Db.{OrientDb, Vertex, Edge, VertexClass, EdgeClass, same_text}
use sovrin.Graph.Nyms.{get_nym, update_txn_id_edge, is_null, has_text}

abbrev count_null : List Value → ℕ
count_null vs = length (keep is_null vs)

-- the property of the new vertex: the first of raw, enc and hash that is truthy
abbrev attribute_props : (raw enc hash : Value) → Result Object
attribute_props raw enc hash =
    if truthy raw
    then ok ((Names.raw, raw) ∷ [])
    else if truthy enc
    then ok ((Names.enc, enc) ∷ [])
    else if truthy hash
    then ok ((Names.hash, hash) ∷ [])
    else err (other "UnboundLocalError")

module _ (db : OrientDb) where
  open db use {Store, create_vertex, create_edge}

  unfoldable pub has_attribute_edge : (to txn_id : Value) → Vertex → Exec Store Unit
  has_attribute_edge to txn_id v = do
    owner ← gets (get_nym db to)
    create_edge EdgeClass.has_attribute owner (some v) ((Names.txn_id, txn_id) ∷ [])

  -- `error` is plenum's handler of a programming error.
  unfoldable pub add_attribute :
      Result (Unit {0}) → (frm txn_id raw enc hash to : Value) → Exec Store Unit
  unfolding has_attribute_edge
  add_attribute error frm txn_id raw enc hash to = do
    if nat_eq (count_null (raw ∷ enc ∷ hash ∷ [])) 2 then pure tt else lift error
    props ← lift (attribute_props raw enc hash)
    v ← create_vertex VertexClass.attribute props
    adder ← gets (get_nym db frm)
    create_edge EdgeClass.adds_attribute adder (some v)
        ((Names.target_nym, to) ∷ (Names.txn_id, txn_id) ∷ [])
    if truthy to then has_attribute_edge to txn_id v else pure tt

  abbrev pub command_failed : (Exc → Result (Unit {0})) → Exc → Exec Store Unit
  command_failed fault orient_command = lift (fault orient_command)
  command_failed fault e = raise e

  -- the body of the `try` of `addAttribTxnToGraph`
  unfoldable pub try_add_attribute : Result (Unit {0}) → (txn_id : Value) → Object → Exec Store Unit
  try_add_attribute error txn_id txn = do
    add_attribute error (get Names.identifier txn) txn_id (get Names.raw txn) (get Names.enc txn)
        (get Names.hash txn) (get Names.target_nym txn)
    update_txn_id_edge db txn_id EdgeClass.adds_attribute txn

  unfoldable pub add_attrib_txn_to_graph :
      (Exc → Result (Unit {0})) → Result (Unit {0}) → Object → Exec Store Unit
  add_attrib_txn_to_graph fault error txn = do
    txn_id ← lift (or_raise key_error (lookup Names.txn_id txn))
    catching (try_add_attribute error txn_id txn) (command_failed fault)
