-- ===== src/Graph/Schema/Indexes.antt =====
-- The unique indexes that the interface `OrientDb` takes for granted are those of the schema.
use sovrin.Prelude.{
  String, ◌≡◌, refl, Bool, false, Option, none, some, List, [], ◌∷◌, if◌then◌else◌,
}
use sovrin.Txn.Names
use sovrin.Graph.Db.{VertexClass, EdgeClass, same_vertex_class, same_edge_class}
use sovrin.Graph.Schema.{
  Class, vertex_class, edge_class, ClassDef, classes_needed, create_nym_class,
  create_adds_nym_class, create_alias_of_class, create_adds_attribute_class,
  create_has_attribute_class, create_adds_cred_def_class, create_has_issuer_class,
  create_unique_nym_vertex_class, create_unique_txn_id_edge_class, create_edge_class_with_txn_data,
}

abbrev same_class : Class → Class → Bool
same_class (vertex_class c) (vertex_class d) = same_vertex_class c d
same_class (edge_class c) (edge_class d) = same_edge_class c d
same_class _ _ = false

-- the unique index of a class, if the class is created
abbrev pub index_in : List ClassDef → Class → Option (Option String)
index_in [] c = none
index_in (d ∷ ds) c = if same_class d.class c then some d.unique else index_in ds c

abbrev vertex_index_of : VertexClass → Option String
vertex_index_of VertexClass.nym = some Names.nym
vertex_index_of _ = none

-- Every edge class is created, with a unique index on the transaction id; every vertex class is
-- created, and that of nyms alone has a unique index, on the nym.
pub classes_needed-indexes :
    (e : EdgeClass) (v : VertexClass)
    → (index_in classes_needed (edge_class e) ≡ some (some Names.txn_id))
      × (index_in classes_needed (vertex_class v) ≡ some (vertex_index_of v))
unfolding classes_needed create_nym_class create_adds_nym_class create_alias_of_class
    create_adds_attribute_class create_has_attribute_class create_adds_cred_def_class
    create_has_issuer_class create_unique_nym_vertex_class create_unique_txn_id_edge_class
    create_edge_class_with_txn_data
classes_needed-indexes e v = (edges e, vertices v)
  where
    edges : (e : EdgeClass) → index_in classes_needed (edge_class e) ≡ some (some Names.txn_id)
    edges EdgeClass.adds_nym = refl
    edges EdgeClass.adds_attribute = refl
    edges EdgeClass.has_attribute = refl
    edges EdgeClass.alias_of = refl
    edges EdgeClass.adds_cred_def = refl
    edges EdgeClass.has_issuer_key = refl

    vertices :
        (v : VertexClass) → index_in classes_needed (vertex_class v) ≡ some (vertex_index_of v)
    vertices VertexClass.nym = refl
    vertices VertexClass.attribute = refl
    vertices VertexClass.cred_def = refl
    vertices VertexClass.issuer_key = refl
