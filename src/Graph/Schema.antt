-- ===== src/Graph/Schema.antt =====
-- The classes that sovrin/persistence/identity_graph.py creates (`classesNeeded` and the `create…`
-- methods): their properties with the types of OrientDB, the unique index, and the classes that an
-- edge may enter and leave.
pub mod Indexes
use sovrin.Prelude.{String, Bool, true, false, Option, none, some, List, [], ◌∷◌, String-Eq}
use sovrin.Python.Dict.{Dict, update}
use sovrin.Txn.Names
use sovrin.Graph.Db.{VertexClass, EdgeClass}

abbrev pub Properties : Type 0
Properties = Dict String String

pub data Class : Type 0 where
  vertex_class : VertexClass → Class
  edge_class : EdgeClass → Class

pub record ClassDef : Type 0 where
  pub class : Class
  pub properties : Properties
  pub unique : Option String
  pub enters : Option VertexClass
  pub leaves : Option VertexClass

abbrev create_vertex_class : VertexClass → Properties → ClassDef
create_vertex_class c ps = record {
  class = vertex_class c;
  properties = ps;
  unique = none;
  enters = none;
  leaves = none;
}

-- `createUniqueNymVertexClass`; no properties and an empty dict of them give the same
unfoldable pub create_unique_nym_vertex_class : VertexClass → Properties → ClassDef
unfolding update
create_unique_nym_vertex_class c ps =
    record (create_vertex_class c (update ps ((Names.nym, "string") ∷ []))) {
      unique = some Names.nym;
    }

-- `createUniqueTxnIdEdgeClass`
unfoldable pub create_unique_txn_id_edge_class : EdgeClass → Properties → ClassDef
unfolding update
create_unique_txn_id_edge_class c ps = record {
  class = edge_class c;
  properties = update ps ((Names.txn_id, "string") ∷ (Names.txn_time, "datetime") ∷ []);
  unique = some Names.txn_id;
  enters = none;
  leaves = none;
}

-- `createEdgeClassWithTxnData`
unfoldable pub create_edge_class_with_txn_data : EdgeClass → Properties → ClassDef
unfolding update create_unique_txn_id_edge_class
create_edge_class_with_txn_data c ps = create_unique_txn_id_edge_class c (
    update ps (
      (Names.txn_id, "string")
      ∷ (Names.txn_time, "datetime")
      ∷ (Names.txn_type, "string")
      ∷ (Names.req_id, "integer")
      ∷ (Names.identifier, "string")
      ∷ (Names.seq_no, "string")
      ∷ []))

unfoldable pub create_nym_class : ClassDef
unfolding create_unique_nym_vertex_class
create_nym_class = create_unique_nym_vertex_class VertexClass.nym ((Names.role, "string") ∷ [])

abbrev pub create_attribute_class : ClassDef
create_attribute_class = create_vertex_class VertexClass.attribute (("data", "string") ∷ [])

abbrev pub create_cred_def_class : ClassDef
create_cred_def_class =
    create_vertex_class VertexClass.cred_def
      ((Names.attr_names, "string") ∷ (Names.typ, "string") ∷ [])

abbrev pub create_issuer_key_class : ClassDef
create_issuer_key_class =
    create_vertex_class VertexClass.issuer_key
      ((Names.reference, "string") ∷ (Names.data_key, "string") ∷ [])

unfoldable pub create_adds_nym_class : ClassDef
unfolding create_edge_class_with_txn_data
create_adds_nym_class =
    record (create_edge_class_with_txn_data EdgeClass.adds_nym ((Names.role, "string") ∷ [])) {
      enters = some VertexClass.nym;
      leaves = some VertexClass.nym;
    }

unfoldable pub create_alias_of_class : ClassDef
unfolding create_unique_txn_id_edge_class
create_alias_of_class =
    record (create_unique_txn_id_edge_class EdgeClass.alias_of ((Names.reference, "string") ∷ [])) {
      enters = some VertexClass.nym;
      leaves = some VertexClass.nym;
    }

unfoldable pub create_adds_attribute_class : ClassDef
unfolding create_edge_class_with_txn_data
create_adds_attribute_class =
    record (create_edge_class_with_txn_data EdgeClass.adds_attribute
      ((Names.target_nym, "string") ∷ [])) { enters = some VertexClass.attribute }

unfoldable pub create_has_attribute_class : ClassDef
unfolding create_unique_txn_id_edge_class
create_has_attribute_class = record (create_unique_txn_id_edge_class EdgeClass.has_attribute []) {
  enters = some VertexClass.attribute;
}

unfoldable pub create_adds_cred_def_class : ClassDef
unfolding create_unique_txn_id_edge_class
create_adds_cred_def_class =
    record (create_unique_txn_id_edge_class EdgeClass.adds_cred_def
      ((Names.name, "string") ∷ (Names.version, "string") ∷ [])) {
        enters = some VertexClass.cred_def;
      }

-- `createHasIssuerClass`; the constraint that it adds stands on HasAttribute, as
-- `has_issuer_constraint` has it
unfoldable pub create_has_issuer_class : ClassDef
unfolding create_unique_txn_id_edge_class
create_has_issuer_class = create_unique_txn_id_edge_class EdgeClass.has_issuer_key []

abbrev pub has_issuer_constraint : EdgeClass × VertexClass
has_issuer_constraint = (EdgeClass.has_attribute, VertexClass.nym)

-- `classesNeeded`, in the order of creation
unfoldable pub classes_needed : List ClassDef
classes_needed =
    create_nym_class ∷ create_attribute_class ∷ create_cred_def_class ∷ create_issuer_key_class
    ∷ create_adds_nym_class ∷ create_alias_of_class ∷ create_adds_attribute_class
    ∷ create_has_attribute_class ∷ create_adds_cred_def_class ∷ create_has_issuer_class ∷ []
