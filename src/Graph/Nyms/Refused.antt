-- ===== src/Graph/Nyms/Refused.antt =====
-- `addNymTxnToGraph` where the database refuses a command.
use sovrin.Prelude.{
  String, ◌≡◌, ◌≢◌, refl, Bool, true, false, none, some, List, [], ◌∷◌, ◌++◌, any, find, arith,
  if◌then◌else◌, String-Eq, ap, subst, ◌∙◌, sym, find-append_none, eq_refl, eq_iff,
}
use sovrin.Python.Dict.{lookup}
use sovrin.Python.Value.{Value, str, Object, get, or_else, truthy}
use sovrin.Python.Result.{Exc, Result, ok, err, orient_command}
use sovrin.Python.Exec.{pure}
use sovrin.Txn.{is_valid_role}
use sovrin.Txn.Names
use sovrin.Graph.Db.{OrientDb, Vertex, VertexClass, EdgeClass, vertex_clash}
use sovrin.Graph.Nyms.{
  has_text, is_some, get_nym, has_nym, get_adds_nym_edge, get_sponsor_for, add_nym, add_nym_edge,
  nym_props, try_add_nym, add_nym_txn_to_graph,
}
use sovrin.Graph.Nyms.Added.{find_none}

find_some {ℓ} :
    {A : Type ℓ} (p : A → Bool) (xs : List A) → is_some (find p xs) ≡ true → any p xs ≡ true
find_some p [] h = ground arith
find_some p (x ∷ xs) h = ground (arith, find_some p xs)

module _ (db : OrientDb) (n : String) (id role frm seq : Value) (s : db.Store) where
  abbrev props : Object
  props = nym_props id (str n) role frm seq

  get-props : get Names.nym props ≡ str n
  unfolding get lookup
  get-props = ground arith

  clash :
      has_nym db (str n) s ≡ true
      → vertex_clash VertexClass.nym props (db.vertices VertexClass.nym s) ≡ true
  unfolding has_nym get_nym
  clash known = rw get-props (find_some _ (db.vertices VertexClass.nym s) known)

  no_clash :
      has_nym db (str n) s ≡ false
      → vertex_clash VertexClass.nym props (db.vertices VertexClass.nym s) ≡ false
  unfolding has_nym get_nym
  no_clash unknown = rw get-props (find_none _ (db.vertices VertexClass.nym s) unknown)

module _ (db : OrientDb) (fault : Exc → Result (Unit {0})) (n : String) (id : Value) (txn : Object)
    (s : db.Store) (target : lookup Names.target_nym txn ≡ some (str n))
    (has_id : lookup Names.txn_id txn ≡ some id)
    (valid : is_valid_role (or_else (get Names.role txn) (str Names.user)) ≡ true) where
  -- Adding a nym that the graph has returns and leaves the graph as it is: a transaction that is
  -- added twice is added once.
  pub add_nym_txn_to_graph-known :
      has_nym db (str n) s ≡ true → add_nym_txn_to_graph db fault txn s ≡ (ok tt, s)
  unfolding add_nym_txn_to_graph try_add_nym add_nym
  add_nym_txn_to_graph-known known = rw valid (
      rw target (
        rw has_id (
          rw (
            db.refused-create_vertex VertexClass.nym _ s (
              clash db n id (or_else (get Names.role txn) (str Names.user))
                (get Names.identifier txn) (get Names.seq_no txn) s known)))))

  abbrev origin : Value
  origin = get Names.identifier txn

  abbrev new : Vertex
  new = record {
    rid = db.next_rid VertexClass.nym s;
    props =
        nym_props id (str n) (or_else (get Names.role txn) (str Names.user)) origin
          (get Names.seq_no txn);
  }

  abbrev with_nym : db.Store
  with_nym = (db.create_vertex VertexClass.nym new.props s).1

  module _ (f : String) (from : origin ≡ str f) (named : truthy (str f) ≡ true) (other : n ≢ f)
      (unknown : has_nym db (str n) s ≡ false) (stranger : get_nym db (str f) s ≡ none) where
    vertices-with_nym :
        db.vertices VertexClass.nym with_nym ≡ db.vertices VertexClass.nym s ++ new ∷ []
    vertices-with_nym =
        db.vertices-create_vertex VertexClass.nym VertexClass.nym new.props s
        ∙ (rw (no_clash db n id _ origin (get Names.seq_no txn) s unknown))

    created : (db.create_vertex VertexClass.nym new.props s).0 ≡ ok new
    created =
        db.result-create_vertex VertexClass.nym new.props s
        ∙ (rw (no_clash db n id _ origin (get Names.seq_no txn) s unknown))

    not_named : has_text Names.nym (str f) new.props ≡ false
    not_named =
        rw (get-props db n id _ origin (get Names.seq_no txn) s) (ground (arith, eq_iff n f))

    no_sender : get_nym db origin with_nym ≡ none
    unfolding get_nym
    no_sender =
        rw (from, vertices-with_nym)
          (find-append_none _ (db.vertices VertexClass.nym s) (new ∷ [])
              (find_none _ (db.vertices VertexClass.nym s) (ap is_some stranger))
            ∙ (rw not_named))

    edge_refused :
        (role r : Value)
        → add_nym_edge db id (str n) role origin r with_nym ≡ (err orient_command, with_nym)
    unfolding add_nym_edge
    edge_refused role r =
        rw no_sender (rw (db.no_source EdgeClass.adds_nym (get_nym db (str n) with_nym)))

    nym_refused :
        (r : Value)
        → add_nym db id
            (str n)
            (or_else (get Names.role txn) (str Names.user))
            origin
            r
            (get Names.seq_no txn)
            s
          ≡ (err orient_command, with_nym)
    unfolding add_nym
    nym_refused r = rw created (
        ap
          (λ (b : Bool).
            (if b
                then add_nym_edge db id (str n) (or_else (get Names.role txn) (str Names.user))
                    origin r
                else pure tt)
              with_nym)
          (subst (λ v. truthy v ≡ true) (sym from) named)
        ∙ edge_refused (or_else (get Names.role txn) (str Names.user)) r)

    ran : add_nym_txn_to_graph db fault txn s ≡ (fault orient_command, with_nym)
    unfolding add_nym_txn_to_graph try_add_nym
    ran = rw valid (rw target (rw has_id (rw (nym_refused (get Names.reference txn)))))

    found :
        find
          (λ (v : Vertex). has_text Names.nym (str n) v.props)
          (db.vertices VertexClass.nym s ++ new ∷ [])
        ≡ some new
    unfolding has_nym get_nym
    found =
        find-append_none _ (db.vertices VertexClass.nym s) (new ∷ [])
          (find_none _ (db.vertices VertexClass.nym s) unknown)
        ∙ (rw (get-props db n id _ origin (get Names.seq_no txn) s) (rw (eq_refl n)))

    -- A NYM transaction with an id, for a nym that the graph does not have and that no edge adds
    -- yet, with a valid role or none, whose sender is named, is not the nym itself and is not in
    -- the graph, leaves the new nym in the graph without a sponsor; whether the call raises is what
    -- `fault` makes of the database's refusal.
    pub add_nym_txn_to_graph-stranger :
        get_adds_nym_edge db (str n) s ≡ none
        → let (r, s') = add_nym_txn_to_graph db fault txn s in
          (r ≡ fault orient_command)
          × (has_nym db (str n) s' ≡ true)
          × (get_sponsor_for db (str n) s' ≡ Value.null)
    unfolding has_nym get_nym get_sponsor_for get_adds_nym_edge
    add_nym_txn_to_graph-stranger no_edge = rw ran (
      refl,
      rw vertices-with_nym (rw found),
      rw (db.edges-create_vertex VertexClass.nym EdgeClass.adds_nym new.props s) (rw no_edge),
    )
