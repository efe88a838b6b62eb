-- ===== src/Graph/Nyms/Added.antt =====
-- `addNymTxnToGraph` for a transaction that a known nym sent: the new nym, its role and its
-- sponsor are what the queries then return.
use sovrin.Prelude.{
  String, ◌≡◌, refl, Bool, true, false, some, List, [], ◌∷◌, ◌++◌, any, find, map, arith, String-Eq,
  ap, ◌∙◌, find-append_found, find-append_none, eq_refl,
}
use sovrin.Python.Dict.{lookup}
use sovrin.Python.Value.{Value, str, Object, get, truthy}
use sovrin.Python.Result.{ok}
use sovrin.Txn.Names
use sovrin.Graph.Db.{
  OrientDb, Vertex, Edge, VertexClass, EdgeClass, set_props, edge_clash, vertex_clash,
}
use sovrin.Graph.Nyms.{
  edge_updates, txn_edge_props, has_text, is_some, get_nym, has_nym, add_nym, try_add_nym,
  update_txn_id_edge, add_nym_edge,
}

-- a search that finds nothing, as a test
pub find_none {ℓ} :
    {A : Type ℓ} (p : A → Bool) (xs : List A) → is_some (find p xs) ≡ false → any p xs ≡ false
find_none p [] h = refl
find_none p (x ∷ xs) h = ground (arith, find_none p xs)

module _ (db : OrientDb) (n f t : String) (role : Value) (txn : Object) (s : db.Store)
    (vf : Vertex) where
  abbrev pub props : Object
  props = (Names.nym, str n) ∷ (Names.txn_id, str t) ∷ (Names.role, role) ∷ []

  abbrev pub new : Vertex
  new = record { rid = db.next_rid VertexClass.nym s; props = props }

  abbrev pub edge_props : Object
  edge_props = (Names.nym, str n) ∷ (Names.role, role) ∷ (Names.txn_id, str t) ∷ []

  abbrev pub with_nym : db.Store
  with_nym = (db.create_vertex VertexClass.nym props s).1

  abbrev pub with_edge : db.Store
  with_edge = (db.create_edge EdgeClass.adds_nym (some vf) (some new) edge_props with_nym).1

  abbrev pub after : db.Store
  after = (db.update_edges EdgeClass.adds_nym t (edge_updates txn_edge_props txn) with_edge).1

  module _ (unknown : has_nym db (str n) s ≡ false) (sponsor : get_nym db (str f) s ≡ some vf) where
    no_clash : vertex_clash VertexClass.nym props (db.vertices VertexClass.nym s) ≡ false
    unfolding has_nym get_nym get lookup
    no_clash = find_none _ (db.vertices VertexClass.nym s) unknown

    vertices-with_nym :
        db.vertices VertexClass.nym with_nym ≡ db.vertices VertexClass.nym s ++ new ∷ []
    vertices-with_nym =
        db.vertices-create_vertex VertexClass.nym VertexClass.nym props s ∙ (rw no_clash)

    vertices-with_edge :
        db.vertices VertexClass.nym with_edge ≡ db.vertices VertexClass.nym s ++ new ∷ []
    vertices-with_edge =
        db.vertices-create_edge EdgeClass.adds_nym VertexClass.nym (some vf) (some new) edge_props
          with_nym
        ∙ vertices-with_nym

    pub vertices-after :
        db.vertices VertexClass.nym after ≡ db.vertices VertexClass.nym s ++ new ∷ []
    vertices-after =
        db.vertices-update_edges EdgeClass.adds_nym VertexClass.nym t
          (edge_updates txn_edge_props txn) with_edge
        ∙ vertices-with_edge

    absent :
        any (λ (v : Vertex). has_text Names.nym (str n) v.props) (db.vertices VertexClass.nym s)
        ≡ false
    unfolding has_nym get_nym
    absent = find_none _ (db.vertices VertexClass.nym s) unknown

    pub find_new :
        find
          (λ (v : Vertex). has_text Names.nym (str n) v.props)
          (db.vertices VertexClass.nym s ++ new ∷ [])
        ≡ some new
    unfolding get lookup
    find_new =
        find-append_none _ (db.vertices VertexClass.nym s) (new ∷ []) absent ∙ (rw (eq_refl n))

    pub find_sponsor :
        find
          (λ (v : Vertex). has_text Names.nym (str f) v.props)
          (db.vertices VertexClass.nym s ++ new ∷ [])
        ≡ some vf
    unfolding get_nym
    find_sponsor = find-append_found _ (db.vertices VertexClass.nym s) (new ∷ []) vf sponsor

    get_new : get_nym db (str n) with_nym ≡ some new
    unfolding get_nym
    get_new = rw vertices-with_nym find_new

    get_sponsor : get_nym db (str f) with_nym ≡ some vf
    unfolding get_nym
    get_sponsor = rw vertices-with_nym find_sponsor

    module _ (no_edge : edge_clash edge_props (db.edges EdgeClass.adds_nym s) ≡ false) where
      edges-with_nym : db.edges EdgeClass.adds_nym with_nym ≡ db.edges EdgeClass.adds_nym s
      edges-with_nym = db.edges-create_vertex VertexClass.nym EdgeClass.adds_nym props s

      abbrev pub new_edge : Edge
      new_edge = record { source = vf.rid; target = new.rid; props = edge_props }

      edges-with_edge :
          db.edges EdgeClass.adds_nym with_edge ≡ db.edges EdgeClass.adds_nym s ++ new_edge ∷ []
      edges-with_edge =
          db.edges-create_edge EdgeClass.adds_nym EdgeClass.adds_nym vf new edge_props with_nym
          ∙ (rw (edges-with_nym, no_edge))

      pub edges-after :
          db.edges EdgeClass.adds_nym after
          ≡ map
              (set_props t (edge_updates txn_edge_props txn))
              (db.edges EdgeClass.adds_nym s ++ new_edge ∷ [])
      edges-after =
          db.edges-update_edges EdgeClass.adds_nym EdgeClass.adds_nym t
            (edge_updates txn_edge_props txn) with_edge
          ∙ ap (map (set_props t (edge_updates txn_edge_props txn))) edges-with_edge

      created : (db.create_vertex VertexClass.nym props s).0 ≡ ok new
      created = db.result-create_vertex VertexClass.nym props s ∙ (rw no_clash)

      linked :
          (db.create_edge EdgeClass.adds_nym (some vf) (some new) edge_props with_nym).0 ≡ ok tt
      linked =
          db.result-create_edge EdgeClass.adds_nym vf new edge_props with_nym
          ∙ (rw (edges-with_nym, no_edge))

      set :
          (db.update_edges EdgeClass.adds_nym t (edge_updates txn_edge_props txn) with_edge).0
          ≡ ok tt
      set = db.result-update_edges EdgeClass.adds_nym t (edge_updates txn_edge_props txn) with_edge

      module _ (reference : Value) (plain : truthy reference ≡ false) where
        edge_ran :
            add_nym_edge db (str t) (str n) role (str f) reference with_nym ≡ (ok tt, with_edge)
        unfolding add_nym_edge
        edge_ran = rw (get_sponsor, get_new) (rw linked (rw plain))

        nym_ran :
            (seq : Value)
            → truthy (str f) ≡ true
            → add_nym db (str t) (str n) role (str f) reference seq s ≡ (ok tt, with_edge)
        unfolding add_nym
        nym_ran seq named = rw named (rw created edge_ran)

      pub ran :
          get Names.identifier txn ≡ str f
          → truthy (str f) ≡ true
          → truthy (get Names.reference txn) ≡ false
          → lookup Names.txn_id txn ≡ some (str t)
          → try_add_nym db (str n) role txn s ≡ (ok tt, after)
      unfolding try_add_nym update_txn_id_edge
      ran from named plain id =
          rw (id, from)
            (rw (nym_ran (get Names.reference txn) plain (get Names.seq_no txn) named)
              (λ i. (set i, after)))
