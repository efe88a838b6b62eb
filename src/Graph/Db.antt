-- ===== src/Graph/Db.antt =====
-- OrientDB as sovrin/persistence/identity_graph.py uses it, through pyorient and plenum: an
-- interface of commands, with the documented behaviour of unique indexes as its laws. A query is
-- a filter of the records of a class, in the order of their creation.
use sovrin.Prelude.{
  ℕ, String, ◌≡◌, Bool, true, false, Option, none, some, List, [], ◌∷◌, ◌++◌, map, any, find,
  if◌then◌else◌, nat_eq, nat_eq_iff, String-Eq, sym, ap, ◌∙◌, refl, zero, suc,
}
use sovrin.Python.Dict.{update}
use sovrin.Python.Value.{Value, str, Object, is_str, get}
use sovrin.Python.Result.{ok, err, orient_duplicated, orient_command}
use sovrin.Python.Exec.{Exec}
use sovrin.Txn.Names

-- `class Vertices` and `class Edges`
pub data VertexClass : Type 0 where
  nym attribute cred_def issuer_key : VertexClass

pub data EdgeClass : Type 0 where
  adds_nym adds_attribute has_attribute alias_of adds_cred_def has_issuer_key : EdgeClass

abbrev vertex_index : VertexClass → ℕ
vertex_index VertexClass.nym = 0
vertex_index VertexClass.attribute = 1
vertex_index VertexClass.cred_def = 2
vertex_index VertexClass.issuer_key = 3

abbrev edge_index : EdgeClass → ℕ
edge_index EdgeClass.adds_nym = 0
edge_index EdgeClass.adds_attribute = 1
edge_index EdgeClass.has_attribute = 2
edge_index EdgeClass.alias_of = 3
edge_index EdgeClass.adds_cred_def = 4
edge_index EdgeClass.has_issuer_key = 5

abbrev pub same_vertex_class : VertexClass → VertexClass → Bool
same_vertex_class c d = nat_eq (vertex_index c) (vertex_index d)

abbrev pub same_edge_class : EdgeClass → EdgeClass → Bool
same_edge_class c d = nat_eq (edge_index c) (edge_index d)

abbrev vertex_class : ℕ → VertexClass
vertex_class zero = VertexClass.nym
vertex_class (suc zero) = VertexClass.attribute
vertex_class (suc (suc zero)) = VertexClass.cred_def
vertex_class (suc (suc (suc n))) = VertexClass.issuer_key

abbrev edge_class : ℕ → EdgeClass
edge_class zero = EdgeClass.adds_nym
edge_class (suc zero) = EdgeClass.adds_attribute
edge_class (suc (suc zero)) = EdgeClass.has_attribute
edge_class (suc (suc (suc zero))) = EdgeClass.alias_of
edge_class (suc (suc (suc (suc zero)))) = EdgeClass.adds_cred_def
edge_class (suc (suc (suc (suc (suc n))))) = EdgeClass.has_issuer_key

vertex_class_of_index : (c : VertexClass) → vertex_class (vertex_index c) ≡ c
vertex_class_of_index VertexClass.nym = refl
vertex_class_of_index VertexClass.attribute = refl
vertex_class_of_index VertexClass.cred_def = refl
vertex_class_of_index VertexClass.issuer_key = refl

edge_class_of_index : (c : EdgeClass) → edge_class (edge_index c) ≡ c
edge_class_of_index EdgeClass.adds_nym = refl
edge_class_of_index EdgeClass.adds_attribute = refl
edge_class_of_index EdgeClass.has_attribute = refl
edge_class_of_index EdgeClass.alias_of = refl
edge_class_of_index EdgeClass.adds_cred_def = refl
edge_class_of_index EdgeClass.has_issuer_key = refl

pub same_vertex_class_eq : (c d : VertexClass) → same_vertex_class c d ≡ true → c ≡ d
same_vertex_class_eq c d h =
    sym (vertex_class_of_index c)
    ∙ ap vertex_class ((nat_eq_iff (vertex_index c) (vertex_index d)).0 h)
    ∙ vertex_class_of_index d

pub same_edge_class_eq : (c d : EdgeClass) → same_edge_class c d ≡ true → c ≡ d
same_edge_class_eq c d h =
    sym (edge_class_of_index c)
    ∙ ap edge_class ((nat_eq_iff (edge_index c) (edge_index d)).0 h)
    ∙ edge_class_of_index d

-- Records with their ids. `source` and `target` are OrientDB's `out` and `in`.
pub record Vertex : Type 0 where
  pub rid : ℕ
  pub props : Object

pub record Edge : Type 0 where
  pub source : ℕ
  pub target : ℕ
  pub props : Object

abbrev pub same_text : Value → Value → Bool
same_text (str s) v = is_str v s
same_text _ v = false

-- The unique index on the nym of nym vertices.
abbrev pub vertex_clash : VertexClass → Object → List Vertex → Bool
vertex_clash VertexClass.nym p vs =
    any (λ (v : Vertex). same_text (get Names.nym p) (get Names.nym v.props)) vs
vertex_clash _ p vs = false

-- The unique index on the transaction id of every edge class.
abbrev pub edge_clash : Object → List Edge → Bool
edge_clash p es = any (λ (e : Edge). same_text (get Names.txn_id p) (get Names.txn_id e.props)) es

abbrev pub set_props : String → Object → Edge → Edge
set_props id p e =
    if is_str (get Names.txn_id e.props) id then record e { props = update e.props p } else e

pub record OrientDb : Type 1 where
  pub Store : Type 0
  pub vertices : VertexClass → Store → List Vertex
  pub edges : EdgeClass → Store → List Edge
  -- the id of the next record of a class
  pub next_rid : VertexClass → Store → ℕ
  pub create_vertex : VertexClass → Object → Exec Store Vertex
  -- `create edge c from … to …`, with what the two subselects yield
  pub create_edge : EdgeClass → Option Vertex → Option Vertex → Object → Exec Store Unit
  -- `update c set … where txnId = …`
  pub update_edges : EdgeClass → String → Object → Exec Store Unit
  -- a record id identifies a record of its class
  pub rid_unique :
      (c : VertexClass) (s : Store) (p : Vertex → Bool) (v : Vertex)
      → find p (vertices c s) ≡ some v
      → find (λ (w : Vertex). nat_eq w.rid v.rid) (vertices c s) ≡ some v
  pub result-create_vertex :
      (c : VertexClass) (p : Object) (s : Store)
      → (create_vertex c p s).0 ≡ (
          if vertex_clash c p (vertices c s)
          then err orient_duplicated
          else ok (record { rid = next_rid c s; props = p }))
  pub refused-create_vertex :
      (c : VertexClass) (p : Object) (s : Store)
      → vertex_clash c p (vertices c s) ≡ true
      → create_vertex c p s ≡ (err orient_duplicated, s)
  pub vertices-create_vertex :
      (c d : VertexClass) (p : Object) (s : Store)
      → vertices d (create_vertex c p s).1 ≡ (
          if vertex_clash c p (vertices c s)
          then vertices d s
          else if same_vertex_class c d
          then vertices d s ++ record { rid = next_rid c s; props = p } ∷ []
          else vertices d s)
  pub edges-create_vertex :
      (c : VertexClass) (d : EdgeClass) (p : Object) (s : Store)
      → edges d (create_vertex c p s).1 ≡ edges d s
  pub no_source :
      (c : EdgeClass) (w : Option Vertex) (p : Object) (s : Store)
      → create_edge c none w p s ≡ (err orient_command, s)
  pub no_target :
      (c : EdgeClass) (v : Vertex) (p : Object) (s : Store)
      → create_edge c (some v) none p s ≡ (err orient_command, s)
  pub result-create_edge :
      (c : EdgeClass) (v w : Vertex) (p : Object) (s : Store)
      → (create_edge c (some v) (some w) p s).0
        ≡ (if edge_clash p (edges c s) then err orient_duplicated else ok tt)
  pub edges-create_edge :
      (c d : EdgeClass) (v w : Vertex) (p : Object) (s : Store)
      → edges d (create_edge c (some v) (some w) p s).1 ≡ (
          if edge_clash p (edges c s)
          then edges d s
          else if same_edge_class c d
          then edges d s ++ record { source = v.rid; target = w.rid; props = p } ∷ []
          else edges d s)
  pub vertices-create_edge :
      (c : EdgeClass) (d : VertexClass) (v w : Option Vertex) (p : Object) (s : Store)
      → vertices d (create_edge c v w p s).1 ≡ vertices d s
  pub result-update_edges :
      (c : EdgeClass) (id : String) (p : Object) (s : Store) → (update_edges c id p s).0 ≡ ok tt
  pub edges-update_edges :
      (c d : EdgeClass) (id : String) (p : Object) (s : Store)
      → edges d (update_edges c id p s).1
        ≡ (if same_edge_class c d then map (set_props id p) (edges d s) else edges d s)
  pub vertices-update_edges :
      (c : EdgeClass) (d : VertexClass) (id : String) (p : Object) (s : Store)
      → vertices d (update_edges c id p s).1 ≡ vertices d s
