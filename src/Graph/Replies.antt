-- ===== src/Graph/Replies.antt =====
-- The transactions that sovrin/persistence/identity_graph.py makes from the graph: `getTxn`,
-- `getResultForTxnIds`, `getTxnsWithoutEdge`, `cleanKeyNames` and `makeResult`.
pub mod Typed
pub mod Tests
use sovrin.Prelude.{
  ℕ, String, ◌<◌, Bool, true, false, not, Option, none, some, List, [], ◌∷◌, ◌++◌, any, keep, find,
  map, length, if◌then◌else◌, nat_eq, ltb, String-Eq, ◌==◌, ◌||◌, ◌&&◌,
}
use Prim.Native.String.{slice, len, ◌++◌ as append}
use text.Mathlib.Text.{starts_with}
use sovrin.Python.Dict.{Dict, lookup, insert, update, erase, contains, values}
use sovrin.Python.Value.{
  Value, null, bool, num, str, obj, arr, Object, get, truthy, is_str, or_null, of_dict,
}
use sovrin.Python.Value.Equality.{Value-Eq}
use sovrin.Python.Result.{
  Result, ok, err, key_error, value_error, type_error, orient_command, or_raise, ◌>>=◌,
}
use sovrin.Txn.Names
use sovrin.Graph.Db.{OrientDb, Vertex, Edge, VertexClass, EdgeClass}
use sovrin.Graph.Nyms.{txn_edge_props, has_text}
use sovrin.Graph.Count.{txn_edges}

-- What the queries take from elsewhere. `nulls` says whether the driver gives `None` for a
-- property that a record does not have or leaves it out; `above` is OrientDB's `>`; `timestamp` is
-- `time.mktime` of a `datetime`, where there is one.
pub record Reader : Type 0 where
  pub nulls : Bool
  pub above : Value → Value → Bool
  pub parse_int : String → Option ℕ
  pub timestamp : Value → Option ℕ
  pub min_txn_time : ℕ
  pub now : ℕ

-- `chain.from_iterable(Vertices._Properties.values())`
abbrev pub vertex_properties : List String
vertex_properties =
    Names.nym ∷ Names.txn_id ∷ Names.role ∷ Names.seq_no ∷ Names.raw ∷ Names.enc ∷ Names.hash
    ∷ Names.typ ∷ Names.attr_names ∷ Names.reference ∷ Names.data_key ∷ []

-- `getEdgeByTxnType`
abbrev pub get_edge_by_txn_type : Value → Option EdgeClass
get_edge_by_txn_type t =
    if is_str t Names.nym
    then some EdgeClass.adds_nym
    else if is_str t Names.attrib
    then some EdgeClass.adds_attribute
    else if is_str t Names.cred_def
    then some EdgeClass.adds_cred_def
    else if is_str t Names.issuer_key
    then some EdgeClass.has_issuer_key
    else none

-- `getTxnTypeFromEdge`
abbrev pub get_txn_type_from_edge : EdgeClass → Option String
get_txn_type_from_edge EdgeClass.adds_nym = some Names.nym
get_txn_type_from_edge EdgeClass.adds_attribute = some Names.attrib
get_txn_type_from_edge EdgeClass.adds_cred_def = some Names.cred_def
get_txn_type_from_edge EdgeClass.has_issuer_key = some Names.issuer_key
get_txn_type_from_edge _ = none

-- the class of the vertices that the edges of a class lead to
abbrev class_in : EdgeClass → VertexClass
class_in EdgeClass.adds_nym = VertexClass.nym
class_in EdgeClass.adds_attribute = VertexClass.attribute
class_in EdgeClass.has_attribute = VertexClass.attribute
class_in EdgeClass.alias_of = VertexClass.nym
class_in EdgeClass.adds_cred_def = VertexClass.cred_def
class_in EdgeClass.has_issuer_key = VertexClass.issuer_key

abbrev clean_key : String → String
clean_key k =
    if starts_with k "__e_"
    then slice k 4 (len k)
    else if starts_with k "__v_"
    then slice k 4 (len k)
    else k

unfoldable pub clean_into : Object → Object → Object
unfolding insert
clean_into [] d = d
clean_into ((k, v) ∷ es) d = clean_into es (insert (clean_key k) v d)

-- `cleanKeyNames`
unfoldable pub clean_key_names : Object → Object
unfolding clean_into
clean_key_names o = clean_into o []

-- `d[k]`
abbrev pub item : String → Object → Result Value
item k d = or_raise key_error (lookup k d)

-- `for n in ks: if n in o: …; break`
unfoldable pub first_present : List String → Object → Object
first_present [] o = []
first_present (k ∷ ks) o =
    let rest = first_present ks o in if contains k o then (k, get k o) ∷ [] else rest

-- the same without the `break`
unfoldable pub all_present : List String → Object → Object
all_present [] o = []
all_present (k ∷ ks) o =
    let rest = all_present ks o in if contains k o then (k, get k o) ∷ rest else rest

-- what `makeResult` adds for the type
abbrev pub own_part : Value → Object → Object
own_part type o =
    if is_str type Names.nym
    then (Names.role, get Names.role o) ∷ []
    else if is_str type Names.attrib
    then first_present (Names.raw ∷ Names.enc ∷ Names.hash ∷ []) o
    else if is_str type Names.cred_def
    then (
      Names.data_key,
      obj (
          of_dict (
            all_present
              (Names.ip ∷ Names.port ∷ Names.keys ∷ Names.typ ∷ Names.name ∷ Names.version ∷ [])
              o)),
    )
      ∷ []
    else []

-- a set of values
unfoldable pub distinct : List Value → List Value
distinct [] = []
distinct (v ∷ vs) = let rest = distinct vs in if any (◌==◌ v) rest then rest else v ∷ rest

module _ (q : Reader) where
  -- `int(v)`, where `none` is the `TypeError`
  abbrev int_of : Value → Result (Option ℕ)
  int_of (num n) = ok (some n)
  int_of (bool true) = ok (some 1)
  int_of (bool false) = ok (some 0)
  int_of (str s) = elim (q.parse_int s) [ none ↦ err value_error | some n ↦ ok (some n) ]
  int_of _ = ok none

  abbrev time_part : Option ℕ → Object
  time_part none = []
  time_part (some t) =
      if ltb q.min_txn_time t && ltb t q.now then (Names.txn_time, num t) ∷ [] else []

  abbrev pub result_of : Value → Object → ℕ → Object
  result_of type o n =
      (Names.seq_no, num n)
      ∷ (Names.txn_type, type)
      ∷ (Names.txn_id, get Names.txn_id o)
      ∷ (Names.req_id, get Names.req_id o)
      ∷ (Names.identifier, get Names.identifier o)
      ∷ (time_part (q.timestamp (get Names.txn_time o))
          ++ all_present (Names.target_nym ∷ []) o
          ++ own_part type o)

  abbrev made : Value → Object → Option ℕ → Object
  made type o none = []
  made type o (some n) = result_of type o n

  -- `makeResult`
  unfoldable pub make_result : Value → Object → Result Object
  unfolding first_present all_present
  make_result type o = do n ← int_of (get Names.seq_no o); ok (made type o n)

  -- the columns `r.k as prefix_k`
  unfoldable pub project : (prefix : String) → List String → Object → Object
  project prefix [] r = []
  project prefix (k ∷ ks) r =
      let rest = project prefix ks r in
      if contains k r || q.nulls then (append prefix k, get k r) ∷ rest else rest

  module _ (db : OrientDb) where
    open db use {Store, vertices, edges}

    abbrev props_of : Option Vertex → Object
    props_of none = []
    props_of (some v) = v.props

    -- a record of the query on an edge class
    abbrev row : EdgeClass → Store → Edge → Object
    row c s e =
        let v = find (λ (v : Vertex). nat_eq v.rid e.target) (vertices (class_in c) s) in
        project "__e_" txn_edge_props e.props ++ project "__v_" vertex_properties (props_of v)

    -- `oRecordData` of a record, with its keys cleaned
    abbrev pub cleaned : EdgeClass → Store → Edge → Object
    cleaned c s e = clean_key_names (row c s e)

    abbrev same_request : (identifier req_id : Value) → Edge → Bool
    same_request i r e = has_text Names.identifier i e.props && get Names.req_id e.props == r

    abbrev first_result : Value → EdgeClass → Store → Option Edge → Result (Option Object)
    first_result type c s none = ok none
    first_result type c s (some e) = do made ← make_result type (cleaned c s e); ok (some made)

    -- `getTxn`, of the type that is given under `TXN_TYPE`
    unfoldable pub get_txn : (identifier req_id type : Value) → Store → Result (Option Object)
    unfolding make_result clean_key_names project
    get_txn i r type s = elim (get_edge_by_txn_type type) [
      | none ↦ err orient_command
      | some c ↦ first_result type c s (find (same_request i r) (edges c s))
    ]

    abbrev is_asked : (ids : List Value) → (since : Value) → Object → Bool
    is_asked ids since o =
        any (λ (i : Value). has_text Names.txn_id i o) ids
        && (not (truthy since) || q.above (get Names.seq_no o) since)

    abbrev with_result : Object → Dict Value Object → Result (Dict Value Object)
    with_result o out = do
      made ← make_result (str Names.nym) o
      n ← item Names.seq_no o
      ok (insert n made out)

    -- the loop of `getTxnsFromEdge`; a record without data is passed over
    unfoldable pub results_of : List Object → Dict Value Object → Result (Dict Value Object)
    unfolding make_result insert
    results_of [] out = ok out
    results_of ([] ∷ os) out = results_of os out
    results_of ((e ∷ o) ∷ os) out = do out' ← with_result (e ∷ o) out; results_of os out'

    -- `getTxnsFromEdge`
    unfoldable pub get_txns_from_edge :
        (ids : List Value) → (since : Value) → EdgeClass → Store → Result (Dict Value Object)
    unfolding results_of clean_key_names project
    get_txns_from_edge ids since c s =
        results_of
          (map (λ (e : Edge). cleaned c s e)
            (keep (λ (e : Edge). is_asked ids since e.props) (edges c s)))
          []

    -- `reduce(lambda d1, d2: {**d1, **d2}, map(getTxnsFromEdge, …))`
    unfoldable pub merge_txns :
        (ids : List Value) → (since : Value) → List EdgeClass → Store → Result (Dict Value Object)
    unfolding get_txns_from_edge update
    merge_txns ids since [] s = ok []
    merge_txns ids since (c ∷ cs) s = do
      first ← get_txns_from_edge ids since c s
      others ← merge_txns ids since cs s
      ok (update first others)

    abbrev as_target : Object → Result Object
    as_target o = do n ← item Names.nym o; ok (insert Names.target_nym n (erase Names.nym o))

    unfoldable pub genesis_results : List Object → Dict Value Object → Result (Dict Value Object)
    unfolding make_result insert erase
    genesis_results [] out = ok out
    genesis_results ([] ∷ os) out = genesis_results os out
    genesis_results ((e ∷ o) ∷ os) out = do
      o' ← as_target (e ∷ o)
      out' ← with_result o' out
      genesis_results os out'

    -- `getTxnsWithoutEdge`
    unfoldable pub get_txns_without_edge :
        (ids : List Value) → (since : Value) → Store → Result (Dict Value Object)
    unfolding genesis_results
    get_txns_without_edge ids since s =
        genesis_results
          (keep (λ (o : Object). is_asked ids since o)
            (map (λ (v : Vertex). v.props) (vertices VertexClass.nym s)))
          []

    abbrev not_found : List Value → Dict Value Object → List Value
    not_found ids found =
        keep (λ (i : Value). not (any (λ (o : Object). get Names.txn_id o == i) (values found))) ids

    abbrev with_missing :
        (ids : List Value)
        → (since : Value) → Store
        → Dict Value Object
        → Result (Dict Value Object)
    with_missing ids since s found =
        if ltb (length found) (length ids)
        then (do
          others ← get_txns_without_edge (not_found ids found) since s
          ok (update found others))
        else ok found

    -- `getResultForTxnIds`
    unfoldable pub get_result_for_txn_ids :
        (ids : List Value) → (since : Value) → Store → Result (Dict Value Object)
    unfolding merge_txns get_txns_without_edge update distinct
    get_result_for_txn_ids ids since s = do
      found ← merge_txns (distinct ids) since txn_edges s
      with_missing (distinct ids) since s found
