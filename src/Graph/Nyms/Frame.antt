-- ===== src/Graph/Nyms/Frame.antt =====
-- Adding a nym changes nothing about the nyms that are there, whatever the transaction holds and
-- however the call ends.
use sovrin.Prelude.{
  String, ◌≡◌, Option, some, List, [], ◌∷◌, ◌++◌, String-Eq, ◌∙◌, sym, find-append_found,
  Bool-cases, inl, inr,
}
use mathlib.Core.List.{append-nil, append_assoc}
use sovrin.Python.Value.{Value, Object}
use sovrin.Python.Result.{Exc, Result, orient_duplicated, orient_command}
use sovrin.Python.Exec.Relates.{IsPreorder, Relates, relates_rules}
use sovrin.Graph.Db.{OrientDb, Vertex, VertexClass, EdgeClass, vertex_clash}
use sovrin.Graph.Nyms.{
  get_nym, get_role, add_nym, add_nym_edge, add_alias, try_add_nym, update_txn_id_edge, nym_failed,
  add_nym_txn_to_graph,
}

module _ (db : OrientDb) where
  -- The nym vertices of the second store begin with those of the first.
  abbrev pub Extends : db.Store → db.Store → Type 0
  Extends s t =
      (new : List Vertex) × (db.vertices VertexClass.nym t ≡ db.vertices VertexClass.nym s ++ new)

  pub Extends-preorder : IsPreorder Extends
  Extends-preorder = record {
    same = λ s. ([], sym (append-nil (db.vertices VertexClass.nym s)));
    chain = λ s t u (a, p) (b, q).
        (a ++ b, q ∙ (rw p (append_assoc (db.vertices VertexClass.nym s) a b)));
  }

  pub create_vertex-Extends : (p : Object) → Relates Extends (db.create_vertex VertexClass.nym p)
  create_vertex-Extends p = record {
    at = λ s. elim (Bool-cases (vertex_clash VertexClass.nym p (db.vertices VertexClass.nym s))) [
      | inl clash ↦ (
        [],
        db.vertices-create_vertex VertexClass.nym VertexClass.nym p s
            ∙ (rw clash (sym (append-nil (db.vertices VertexClass.nym s)))),
      )
      | inr free ↦ (
        record { rid = db.next_rid VertexClass.nym s; props = p } ∷ [],
        db.vertices-create_vertex VertexClass.nym VertexClass.nym p s ∙ (rw free),
      )
    ];
  }

  pub create_edge-Extends :
      (c : EdgeClass) (v w : Option Vertex) (p : Object) → Relates Extends (db.create_edge c v w p)
  create_edge-Extends c v w p = record {
    at = λ s. (
      [],
      db.vertices-create_edge c VertexClass.nym v w p s
          ∙ sym (append-nil (db.vertices VertexClass.nym s)),
    );
  }

  pub update_edges-Extends :
      (c : EdgeClass) (id : String) (p : Object) → Relates Extends (db.update_edges c id p)
  update_edges-Extends c id p = record {
    at = λ s. (
      [],
      db.vertices-update_edges c VertexClass.nym id p s
          ∙ sym (append-nil (db.vertices VertexClass.nym s)),
    );
  }

  ruleset extends_rules = (
    relates_rules, Extends-preorder, create_vertex-Extends, create_edge-Extends,
    update_edges-Extends,
  )

  add_alias-Extends : (r id n : Value) → Relates Extends (add_alias db r id n)
  unfolding add_alias
  add_alias-Extends r id n = search extends_rules

  add_nym_edge-Extends :
      (id n role frm r : Value) → Relates Extends (add_nym_edge db id n role frm r)
  unfolding add_nym_edge
  add_nym_edge-Extends id n role frm r = search (extends_rules, add_alias-Extends) depth 9

  pub add_nym-Extends : (id n role frm r q : Value) → Relates Extends (add_nym db id n role frm r q)
  unfolding add_nym
  add_nym-Extends id n role frm r q = search (extends_rules, add_nym_edge-Extends)

  try_add_nym-Extends :
      (n role : Value) (txn : Object) → Relates Extends (try_add_nym db n role txn)
  unfolding try_add_nym update_txn_id_edge
  try_add_nym-Extends n role txn = search (extends_rules, add_nym-Extends)

  nym_failed-Extends :
      (fault : Exc → Result (Unit {0})) (e : Exc) → Relates Extends (nym_failed db fault e)
  nym_failed-Extends fault orient_duplicated = search extends_rules
  nym_failed-Extends fault orient_command = search extends_rules
  nym_failed-Extends fault _ = search extends_rules

  pub add_nym_txn_to_graph-Extends :
      (fault : Exc → Result (Unit {0})) (txn : Object)
      → Relates Extends (add_nym_txn_to_graph db fault txn)
  unfolding add_nym_txn_to_graph
  add_nym_txn_to_graph-Extends fault txn =
      search (extends_rules, try_add_nym-Extends, nym_failed-Extends)

  pub get_nym-Extends :
      (s t : db.Store) (m : Value) (v : Vertex)
      → Extends s t
      → get_nym db m s ≡ some v
      → get_nym db m t ≡ some v
  unfolding get_nym
  get_nym-Extends s t m v (new, e) h =
      rw e (find-append_found _ (db.vertices VertexClass.nym s) new v h)

  -- A nym that the graph has keeps its record, so also its role, whatever NYM transaction is added
  -- and however the call ends.
  pub add_nym_txn_to_graph-keeps_nyms :
      (fault : Exc → Result (Unit {0})) (txn : Object) (s : db.Store) (m : Value) (v : Vertex)
      → get_nym db m s ≡ some v
      → (get_nym db m (add_nym_txn_to_graph db fault txn s).1 ≡ some v)
        × (get_role db m (add_nym_txn_to_graph db fault txn s).1 ≡ get_role db m s)
  unfolding get_role
  add_nym_txn_to_graph-keeps_nyms fault txn s m v h =
      let kept =
        get_nym-Extends s (add_nym_txn_to_graph db fault txn s).1 m v
          ((add_nym_txn_to_graph-Extends fault txn).at s) h in
      (kept, rw (kept, h))
