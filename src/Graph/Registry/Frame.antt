-- ===== src/Graph/Registry/Frame.antt =====
-- Which operations of the identity graph leave the nym vertices as they are.
use sovrin.Prelude.{String, ◌≡◌, refl, Option, ◌∙◌}
use sovrin.Python.Value.{Value, Object}
use sovrin.Python.Result.{Exc, Result, orient_duplicated, orient_command}
use sovrin.Python.Exec.Relates.{IsPreorder, Relates, relates_rules}
use sovrin.Graph.Db.{OrientDb, Vertex, VertexClass, EdgeClass}
use sovrin.Graph.Nyms.{add_nym_edge, add_alias, update_txn_id_edge, nym_failed}
use sovrin.Graph.Attributes.{
  has_attribute_edge, command_failed, add_attribute, try_add_attribute, add_attrib_txn_to_graph,
}
use sovrin.Graph.Creds.{
  add_cred_def, try_add_cred_def, add_cred_def_txn_to_graph, add_issuer_key, try_add_issuer_key,
  add_issuer_key_txn_to_graph,
}

module _ (db : OrientDb) where
  abbrev pub SameNyms : db.Store → db.Store → Type 0
  SameNyms s t = db.vertices VertexClass.nym t ≡ db.vertices VertexClass.nym s

  pub SameNyms-preorder : IsPreorder SameNyms
  SameNyms-preorder = record { same = λ s. refl; chain = λ s t u p q. q ∙ p }

  edge-SameNyms :
      (c : EdgeClass) (v w : Option Vertex) (p : Object) → Relates SameNyms (db.create_edge c v w p)
  edge-SameNyms c v w p = record { at = λ s. db.vertices-create_edge c VertexClass.nym v w p s }

  update-SameNyms :
      (c : EdgeClass) (id : String) (p : Object) → Relates SameNyms (db.update_edges c id p)
  update-SameNyms c id p = record { at = λ s. db.vertices-update_edges c VertexClass.nym id p s }

  attribute-SameNyms : (p : Object) → Relates SameNyms (db.create_vertex VertexClass.attribute p)
  attribute-SameNyms p = record {
    at = λ s. db.vertices-create_vertex VertexClass.attribute VertexClass.nym p s;
  }

  cred_def-SameNyms : (p : Object) → Relates SameNyms (db.create_vertex VertexClass.cred_def p)
  cred_def-SameNyms p = record {
    at = λ s. db.vertices-create_vertex VertexClass.cred_def VertexClass.nym p s;
  }

  issuer_key-SameNyms : (p : Object) → Relates SameNyms (db.create_vertex VertexClass.issuer_key p)
  issuer_key-SameNyms p = record {
    at = λ s. db.vertices-create_vertex VertexClass.issuer_key VertexClass.nym p s;
  }

  ruleset same_rules = (
    relates_rules, SameNyms-preorder, edge-SameNyms, update-SameNyms, attribute-SameNyms,
    cred_def-SameNyms, issuer_key-SameNyms,
  )

  add_alias-SameNyms : (r id n : Value) → Relates SameNyms (add_alias db r id n)
  unfolding add_alias
  add_alias-SameNyms r id n = search same_rules

  pub add_nym_edge-SameNyms :
      (id n role frm r : Value) → Relates SameNyms (add_nym_edge db id n role frm r)
  unfolding add_nym_edge
  add_nym_edge-SameNyms id n role frm r = search (same_rules, add_alias-SameNyms) depth 9

  pub update_txn_id_edge-SameNyms :
      (id : Value) (c : EdgeClass) (txn : Object)
      → Relates SameNyms (update_txn_id_edge db id c txn)
  unfolding update_txn_id_edge
  update_txn_id_edge-SameNyms id c txn = search same_rules

  pub nym_failed-SameNyms :
      (fault : Exc → Result (Unit {0})) (e : Exc) → Relates SameNyms (nym_failed db fault e)
  nym_failed-SameNyms fault orient_duplicated = search same_rules
  nym_failed-SameNyms fault orient_command = search same_rules
  nym_failed-SameNyms fault _ = search same_rules

  has_attribute_edge-SameNyms :
      (to id : Value) (v : Vertex) → Relates SameNyms (has_attribute_edge db to id v)
  unfolding has_attribute_edge
  has_attribute_edge-SameNyms to id v = search same_rules

  add_attribute-SameNyms :
      (error : Result (Unit {0})) (frm id raw enc hash to : Value)
      → Relates SameNyms (add_attribute db error frm id raw enc hash to)
  unfolding add_attribute
  add_attribute-SameNyms error frm id raw enc hash to =
      search (same_rules, has_attribute_edge-SameNyms) depth 12

  try_add_attribute-SameNyms :
      (error : Result (Unit {0})) (id : Value) (txn : Object)
      → Relates SameNyms (try_add_attribute db error id txn)
  unfolding try_add_attribute
  try_add_attribute-SameNyms error id txn =
      search (same_rules, add_attribute-SameNyms, update_txn_id_edge-SameNyms)

  command_failed-SameNyms :
      (fault : Exc → Result (Unit {0})) (e : Exc) → Relates SameNyms (command_failed db fault e)
  command_failed-SameNyms fault orient_command = search same_rules
  command_failed-SameNyms fault _ = search same_rules

  pub add_attrib_txn_to_graph-SameNyms :
      (fault : Exc → Result (Unit {0})) (error : Result (Unit {0})) (txn : Object)
      → Relates SameNyms (add_attrib_txn_to_graph db fault error txn)
  unfolding add_attrib_txn_to_graph
  add_attrib_txn_to_graph-SameNyms fault error txn =
      search (same_rules, try_add_attribute-SameNyms, command_failed-SameNyms)

  add_cred_def-SameNyms :
      (frm id name version attrs typ : Value)
      → Relates SameNyms (add_cred_def db frm id name version attrs typ)
  unfolding add_cred_def
  add_cred_def-SameNyms frm id name version attrs typ = search same_rules

  try_add_cred_def-SameNyms :
      (id : Value) (txn : Object) → Relates SameNyms (try_add_cred_def db id txn)
  unfolding try_add_cred_def
  try_add_cred_def-SameNyms id txn =
      search (same_rules, add_cred_def-SameNyms, update_txn_id_edge-SameNyms)

  pub add_cred_def_txn_to_graph-SameNyms :
      (fault : Exc → Result (Unit {0})) (txn : Object)
      → Relates SameNyms (add_cred_def_txn_to_graph db fault txn)
  unfolding add_cred_def_txn_to_graph
  add_cred_def_txn_to_graph-SameNyms fault txn = search (same_rules, try_add_cred_def-SameNyms)

  add_issuer_key-SameNyms :
      (dumps : Value → String) (frm id keys ref : Value)
      → Relates SameNyms (add_issuer_key db dumps frm id keys ref)
  unfolding add_issuer_key
  add_issuer_key-SameNyms dumps frm id keys ref = search same_rules

  try_add_issuer_key-SameNyms :
      (dumps : Value → String) (id : Value) (txn : Object)
      → Relates SameNyms (try_add_issuer_key db dumps id txn)
  unfolding try_add_issuer_key
  try_add_issuer_key-SameNyms dumps id txn =
      search (same_rules, add_issuer_key-SameNyms, update_txn_id_edge-SameNyms)

  pub add_issuer_key_txn_to_graph-SameNyms :
      (dumps : Value → String) (fault : Exc → Result (Unit {0})) (txn : Object)
      → Relates SameNyms (add_issuer_key_txn_to_graph db dumps fault txn)
  unfolding add_issuer_key_txn_to_graph
  add_issuer_key_txn_to_graph-SameNyms dumps fault txn =
      search (same_rules, try_add_issuer_key-SameNyms)
