-- ===== src/Graph/Nyms.antt =====
-- PLACE
-- The nyms of sovrin/persistence/identity_graph.py: `getNym` and the queries on it, `addNym`,
-- `addNymTxnToGraph` and the update of an edge by its transaction.
pub mod Edges
pub mod Added
pub mod Sponsored
pub mod Frame
pub mod Refused
use sovrin.Prelude.{
  ℕ, String, Bool, true, false, not, Option, none, some, List, [], ◌∷◌, ◌++◌, any, keep, find,
  head?, map, length, if◌then◌else◌, nat_eq, String-Eq,
}
use sovrin.Python.Dict.{Dict, lookup, insert}
use sovrin.Python.Value.{Value, null, str, Object, truthy, is_str, get, or_else, or_null}
use sovrin.Python.Result.{
  Exc, Result, ok, err, key_error, value_error, type_error, attribute_error, orient_duplicated,
  orient_command, or_raise,
}
use sovrin.Python.Exec.{Exec, pure, raise, lift, gets, asks, catching, ◌>>=◌, ◌>>◌}
use sovrin.Txn.{is_valid_role}
use sovrin.Txn.Names
use sovrin.Graph.Db.{OrientDb, Vertex, Edge, VertexClass, EdgeClass, same_text}

abbrev pub is_some {ℓ} : {A : Type ℓ} → Option A → Bool
is_some none = false
is_some (some _) = true

abbrev pub has_text : String → Value → Object → Bool
has_text k v props = same_text v (get k props)

-- `txnEdgeProps`
abbrev pub txn_edge_props : List String
txn_edge_props =
    Names.seq_no ∷ Names.txn_time ∷ Names.req_id ∷ Names.identifier ∷ Names.target_nym ∷ Names.name
    ∷ Names.version ∷ []

abbrev pub is_null : Value → Bool
is_null null = true
is_null _ = false

-- the properties that `_updateTxnIdEdgeWithTxn` sets: those that the transaction holds
unfoldable pub edge_updates : List String → Object → Object
edge_updates [] txn = []
edge_updates (k ∷ ks) txn =
    let rest = edge_updates ks txn in if is_null (get k txn) then rest else (k, get k txn) ∷ rest

-- the properties of a new nym vertex
abbrev pub nym_props : (txn_id nym role frm seq_no : Value) → Object
nym_props txn_id nym role frm seq_no =
    let base = (Names.nym, nym) ∷ (Names.txn_id, txn_id) ∷ (Names.role, role) ∷ [] in
    if truthy frm then base else base ++ (Names.seq_no, seq_no) ∷ []

abbrev pub text_of : Value → String
text_of (str s) = s
text_of _ = ""

module _ (db : OrientDb) where
  open db use {Store, vertices, edges, create_vertex, create_edge, update_edges}

  -- `getNym(nym)`; the nym is a value, since an origin may be missing
  unfoldable pub get_nym : Value → Store → Option Vertex
  get_nym n s = find (λ (v : Vertex). has_text Names.nym n v.props) (vertices VertexClass.nym s)

  -- `getNym(nym, role)`
  unfoldable pub get_nym_with_role : Value → String → Store → Option Vertex
  get_nym_with_role n role s =
      find
        (λ (v : Vertex).
          if has_text Names.nym n v.props then is_str (get Names.role v.props) role else false)
        (vertices VertexClass.nym s)

  unfoldable pub has_steward : Value → Store → Bool
  has_steward n s = is_some (get_nym_with_role n Names.steward s)

  unfoldable pub has_sponsor : Value → Store → Bool
  has_sponsor n s = is_some (get_nym_with_role n Names.sponsor s)

  unfoldable pub has_user : Value → Store → Bool
  has_user n s = is_some (get_nym_with_role n Names.user s)

  unfoldable pub has_nym : Value → Store → Bool
  has_nym n s = is_some (get_nym n s)

  abbrev role_of : Option Vertex → Result Value
  role_of none = err value_error
  role_of (some v) = ok (get Names.role v.props)

  unfoldable pub get_role : Value → Store → Result Value
  get_role n s = role_of (get_nym n s)

  abbrev by_rid : ℕ → List Vertex → Option Vertex
  by_rid r = find (λ (v : Vertex). nat_eq v.rid r)

  -- `getAddsNymEdge`
  unfoldable pub get_adds_nym_edge : Value → Store → Option Edge
  get_adds_nym_edge n s =
      find (λ (e : Edge). has_text Names.nym n e.props) (edges EdgeClass.adds_nym s)

  abbrev expand_source : List Vertex → Option Edge → Option Vertex
  expand_source vs none = none
  expand_source vs (some e) = by_rid e.source vs

  abbrev nym_of : Option Vertex → Value
  nym_of none = null
  nym_of (some v) = get Names.nym v.props

  -- `getSponsorFor`: the nym at the source of the first edge that added `n`
  unfoldable pub get_sponsor_for : Value → Store → Value
  get_sponsor_for n s = nym_of (expand_source (vertices VertexClass.nym s) (get_adds_nym_edge n s))

  unfoldable pub count_stewards : Store → ℕ
  count_stewards s = length (
      keep (λ (v : Vertex). is_str (get Names.role v.props) Names.steward)
        (vertices VertexClass.nym s))

  abbrev genesis_result : Value → Option Vertex → Option Object
  genesis_result n none = none
  genesis_result n (some v) = some (
      (Names.txn_id, get Names.txn_id v.props)
      ∷ (Names.target_nym, n)
      ∷ (Names.role, get Names.role v.props)
      ∷ [])

  abbrev edge_result : Edge → Option Vertex → Option Vertex → Result (Option Object)
  edge_result e (some frm) (some to) = ok (
      some (
        (Names.txn_id, get Names.txn_id e.props)
        ∷ (Names.role, or_else (get Names.role e.props) (str Names.user))
        ∷ (Names.identifier, get Names.nym frm.props)
        ∷ (Names.target_nym, get Names.nym to.props)
        ∷ []))
  edge_result e _ _ = err value_error

  abbrev add_nym_txn_of : Value → Store → Option Edge → Result (Option Object)
  add_nym_txn_of n s none = ok (genesis_result n (get_nym n s))
  add_nym_txn_of n s (some e) =
      let vs = vertices VertexClass.nym s in edge_result e (by_rid e.source vs) (by_rid e.target vs)

  -- `getAddNymTxn`: a nym without an edge was added by a genesis transaction
  unfoldable pub get_add_nym_txn : Value → Store → Result (Option Object)
  get_add_nym_txn n s = add_nym_txn_of n s (get_adds_nym_edge n s)

  -- `getEdgeByTxnId(Edges.AddsNym, txnId)`
  unfoldable pub get_edge_by_txn_id : Value → Store → Option Edge
  get_edge_by_txn_id id s =
      find (λ (e : Edge). has_text Names.txn_id id e.props) (edges EdgeClass.adds_nym s)

  -- the record that `AliasOf` starts from: `nymEdge` may be `None`
  unfoldable pub referred_nym : Value → Store → Result (Option Vertex)
  referred_nym reference s = elim (get_edge_by_txn_id reference s) [
    | none ↦ err attribute_error
    | some e ↦ ok (by_rid e.target (vertices VertexClass.nym s))
  ]

  unfoldable pub add_alias : (reference txn_id nym : Value) → Exec Store Unit
  add_alias reference txn_id nym = do
    referred ← asks (referred_nym reference)
    to ← gets (get_nym nym)
    create_edge EdgeClass.alias_of referred to
        ((Names.reference, reference) ∷ (Names.txn_id, txn_id) ∷ [])

  unfoldable pub add_nym_edge : (txn_id nym role frm reference : Value) → Exec Store Unit
  add_nym_edge txn_id nym role frm reference = do
    source ← gets (get_nym frm)
    to ← gets (get_nym nym)
    create_edge EdgeClass.adds_nym source to
        ((Names.nym, nym) ∷ (Names.role, role) ∷ (Names.txn_id, txn_id) ∷ [])
    if truthy reference then add_alias reference txn_id nym else pure tt

  unfoldable pub add_nym : (txn_id nym role frm reference seq_no : Value) → Exec Store Unit
  unfolding add_nym_edge add_alias
  add_nym txn_id nym role frm reference seq_no = do
    create_vertex VertexClass.nym (nym_props txn_id nym role frm seq_no)
    if truthy frm then add_nym_edge txn_id nym role frm reference else pure tt

  -- `_updateTxnIdEdgeWithTxn`
  unfoldable pub update_txn_id_edge : (txn_id : Value) → EdgeClass → Object → Exec Store Unit
  update_txn_id_edge txn_id c txn =
      update_edges c (text_of txn_id) (edge_updates txn_edge_props txn)

  abbrev pub nym_failed : (Exc → Result (Unit {0})) → Exc → Exec Store Unit
  nym_failed fault orient_duplicated = pure tt
  nym_failed fault orient_command = lift (fault orient_command)
  nym_failed fault e = raise e

  -- the body of the `try` of `addNymTxnToGraph`
  unfoldable pub try_add_nym : (nym role : Value) (txn : Object) → Exec Store Unit
  try_add_nym nym role txn = do
    txn_id ← lift (or_raise key_error (lookup Names.txn_id txn))
    add_nym txn_id nym role (get Names.identifier txn) (get Names.reference txn)
        (get Names.seq_no txn)
    update_txn_id_edge txn_id EdgeClass.adds_nym txn

  -- `fault` is plenum's handler of a logged failure.
  unfoldable pub add_nym_txn_to_graph : (Exc → Result (Unit {0})) → Object → Exec Store Unit
  add_nym_txn_to_graph fault txn =
      let role = or_else (get Names.role txn) (str Names.user) in
      if is_valid_role role
      then (do
        nym ← lift (or_raise key_error (lookup Names.target_nym txn))
        catching (try_add_nym nym role txn) (nym_failed fault))
      else raise value_error
