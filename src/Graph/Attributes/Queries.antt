-- ===== src/Graph/Attributes/Queries.antt =====
-- The queries on attributes: `getRawAttrs` and `getAddAttributeTxnIds`.
use sovrin.Prelude.{
  ℕ, String, Bool, true, false, Option, none, some, List, [], ◌∷◌, any, keep, find, map,
  if◌then◌else◌, nat_eq, String-Eq, ℕ-Eq, ◌==◌, ◌||◌,
}
use mathlib.Core.List.{filter_map}
use sovrin.Python.Dict.{Dict, lookup, insert}
use sovrin.Python.Value.{Value, num, str, obj, Object, get, to_dict}
use sovrin.Python.Result.{
  Result, ok, err, key_error, value_error, type_error, other, or_raise, ◌>>=◌,
}
use sovrin.Txn.Names
use sovrin.Graph.Db.{OrientDb, Vertex, Edge, VertexClass, EdgeClass}
use sovrin.Graph.Nyms.{get_nym, has_text}

-- `raw.popitem()`: the last item
abbrev pop_item : Object → Result (String × Value)
pop_item [] = err key_error
pop_item (e ∷ []) = ok e
pop_item (e ∷ f ∷ d) = pop_item (f ∷ d)

-- `json.loads(attrRec.oRecordData.get(RAW))`, an object; `loads` is `json.loads`
abbrev parse_object : (String → Option Value) → Value → Result Object
parse_object loads (str s) = elim (loads s) [
  | none ↦ err value_error
  | some (obj fs) ↦ ok (to_dict fs)
  | some v ↦ err (other "AttributeError")
]
parse_object loads v = err type_error

-- `int(v)` of a sequence number
abbrev int_of : Value → Result ℕ
int_of (num n) = ok n
int_of v = err type_error

abbrev is_nil {ℓ} : {A : Type ℓ} → List A → Bool
is_nil [] = true
is_nil (_ ∷ _) = false

-- `seqNos`: the sequence numbers by the attribute that the edge adds
unfoldable pub seq_nos : List Edge → Dict ℕ ℕ → Result (Dict ℕ ℕ)
unfolding insert
seq_nos [] seqs = ok seqs
seq_nos (e ∷ es) seqs = do
  n ← int_of (get Names.seq_no e.props)
  seq_nos es (insert e.target n seqs)

module _ (loads : String → Option Value) (names : List String) (seqs : Dict ℕ ℕ) where
  -- the loop of `getRawAttrs` over the attributes of a nym
  unfoldable pub collect_raw :
      List Vertex → Dict String (Value × ℕ) → Result (Dict String (Value × ℕ))
  unfolding insert lookup
  collect_raw [] result = ok result
  collect_raw (v ∷ vs) result = do
    raw ← parse_object loads (get Names.raw v.props)
    item ← pop_item raw
    if is_nil names || any (λ n. n == item.0) names
        then (do
          n ← or_raise key_error (lookup v.rid seqs)
          collect_raw vs (insert item.0 (item.1, n) result))
        else collect_raw vs result

module _ (db : OrientDb) where
  open db use {Store, vertices, edges}

  abbrev rid_of : Option Vertex → List ℕ
  rid_of none = []
  rid_of (some v) = v.rid ∷ []

  -- the edges of a class that leave the nym
  abbrev leaving : EdgeClass → Value → Store → List Edge
  leaving c n s =
      keep (λ (e : Edge). any (λ r. nat_eq e.source r) (rid_of (get_nym db n s))) (edges c s)

  -- `select expand(outE(c).inV(k)) from NYM where NYM = n`
  unfoldable pub reached : EdgeClass → VertexClass → Value → Store → List Vertex
  reached c k n s =
      filter_map (λ (e : Edge). find (λ (v : Vertex). nat_eq v.rid e.target) (vertices k s))
        (leaving c n s)

  unfoldable pub get_raw_attrs :
      (String → Option Value) → Value → List String → Store → Result (Dict String (Value × ℕ))
  unfolding reached
  get_raw_attrs loads n names s = do
    let attrs = reached EdgeClass.has_attribute VertexClass.attribute n s
    seqs ←
        seq_nos
          (keep (λ (e : Edge). any (λ (v : Vertex). nat_eq v.rid e.target) attrs)
            (edges EdgeClass.adds_attribute s))
          []
    collect_raw loads names seqs attrs []

  unfoldable pub get_add_attribute_txn_ids : Value → Store → List Value
  get_add_attribute_txn_ids n s =
      map (λ (e : Edge). get Names.txn_id e.props)
        (keep (λ (e : Edge). has_text Names.target_nym n e.props)
          (edges EdgeClass.adds_attribute s))
