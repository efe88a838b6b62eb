-- ===== src/Graph/Creds/Queries.antt =====
-- `getCredDef` and `getIssuerKeys` of sovrin/persistence/identity_graph.py. The first command
-- selects the definitions that the AddsCredDef edges of a name and a version lead to; its
-- projection on the issuer filters nothing.
use sovrin.Prelude.{String, Option, none, some, List, [], ◌∷◌, find, keep, nat_eq, String-Eq, ◌&&◌}
use mathlib.Core.List.{filter_map}
use sovrin.Python.Value.{Value, str, Object, get, is_str}
use sovrin.Python.Result.{
  Result, ok, err, attribute_error, index_error, type_error, value_error, or_raise, ◌>>=◌,
}
use sovrin.Txn.Names
use sovrin.Graph.Db.{OrientDb, Vertex, Edge, VertexClass, EdgeClass}
use sovrin.Graph.Nyms.{has_text}
use sovrin.Graph.Attributes.Queries.{reached}

abbrev first_of {ℓ} : {A : Type ℓ} → List A → Result A
first_of [] = err index_error
first_of (a ∷ as_) = ok a

-- `json.loads(v)`
abbrev load : (String → Option Value) → Value → Result Value
load loads (str s) = or_raise value_error (loads s)
load loads v = err type_error

module _ (db : OrientDb) where
  open db use {Store, vertices, edges}

  -- the data of the first edge of a class that enters a record
  abbrev edge_into : EdgeClass → Vertex → Store → Result Object
  edge_into c v s = do
    e ← first_of (keep (λ (e : Edge). nat_eq e.target v.rid) (edges c s))
    ok e.props

  abbrev cred_defs_of : (name version : Value) → Store → List Vertex
  cred_defs_of name version s =
      filter_map
        (λ (e : Edge).
          find (λ (v : Vertex). nat_eq v.rid e.target) (vertices VertexClass.cred_def s))
        (keep
          (λ (e : Edge). has_text Names.name name e.props && has_text Names.version version e.props)
          (edges EdgeClass.adds_cred_def s))

  abbrev cred_def_result : (frm name version : Value) → List Vertex → Store → Result (Option Object)
  cred_def_result frm name version [] s = ok none
  cred_def_result frm name version (v ∷ vs) s = do
    edge ← edge_into EdgeClass.adds_cred_def v s
    ok (
        some (
          (Names.name, name)
          ∷ (Names.version, version)
          ∷ (Names.typ, get Names.typ v.props)
          ∷ (Names.seq_no, get Names.seq_no edge)
          ∷ (Names.attr_names, get Names.attr_names v.props)
          ∷ (Names.origin, frm)
          ∷ []))

  unfoldable pub get_cred_def : (frm name version : Value) → Store → Result (Option Object)
  get_cred_def frm name version s = cred_def_result frm name version (cred_defs_of name version s) s

  -- `needle` stays `None` where no key has the reference, and then has no `_rid`
  abbrev issuer_key_result :
      (loads : String → Option Value) → (frm ref : Value) → Option Vertex → Store → Result Object
  issuer_key_result loads frm ref needle s = do
    v ← or_raise attribute_error needle
    edge ← edge_into EdgeClass.has_issuer_key v s
    keys ← load loads (get Names.data_key v.props)
    ok (
        (Names.origin, frm)
        ∷ (Names.reference, ref)
        ∷ (Names.seq_no, get Names.seq_no edge)
        ∷ (Names.data_key, keys)
        ∷ [])

  abbrev issuer_keys_of :
      (loads : String → Option Value)
      → (to_str : Value → String) → (frm ref : Value) → List Vertex
      → Store
      → Result (Option Object)
  issuer_keys_of loads to_str frm ref [] s = ok none
  issuer_keys_of loads to_str frm ref (v ∷ vs) s = do
    let needle = find (λ (w : Vertex). is_str (get Names.reference w.props) (to_str ref)) (v ∷ vs)
    r ← issuer_key_result loads frm ref needle s
    ok (some r)

  -- `to_str` is `str`.
  unfoldable pub get_issuer_keys :
      (loads : String → Option Value)
      → (to_str : Value → String) → (frm ref : Value) → Store
      → Result (Option Object)
  unfolding reached
  get_issuer_keys loads to_str frm ref s =
      issuer_keys_of loads to_str frm ref
        (reached db EdgeClass.has_issuer_key VertexClass.issuer_key frm s) s
