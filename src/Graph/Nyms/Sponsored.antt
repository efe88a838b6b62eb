-- ===== src/Graph/Nyms/Sponsored.antt =====
-- What the queries of the identity graph return once a sponsor's transaction has been added.
use mathlib.Core.Option
use sovrin.Prelude.{
  String, ◌≡◌, refl, Bool, true, false, none, some, List, [], ◌∷◌, ◌++◌, find, arith, String-Eq, ap,
  ◌∙◌, sym, find-append_none, eq_refl, eq_iff, Option-cases, Bool-cases, str_eq, inl, inr, nat_eq,
}
use mathlib.Core.Bool.{false≢true}
use sovrin.Python.Dict.{lookup}
use sovrin.Python.Value.{Value, str, Object, get, or_else, truthy, is_str_eq}
use sovrin.Python.Result.{Exc, Result, ok}
use sovrin.Txn.{is_valid_role}
use sovrin.Txn.Names
use sovrin.Graph.Db.{OrientDb, Vertex, Edge, VertexClass, EdgeClass, edge_clash}
use sovrin.Graph.Nyms.{
  edge_updates, txn_edge_props, has_text, is_some, get_nym, has_nym, get_role, get_adds_nym_edge,
  get_sponsor_for, get_add_nym_txn, add_nym_txn_to_graph, get_edge_by_txn_id,
}
use sovrin.Graph.Nyms.Edges.{
  updated, find-updated, source-updated, target-updated, get-updated, nym-Avoids, role-Avoids,
  txn_id-Avoids,
}
use sovrin.Graph.Nyms.Added.{
  find_none, new, edge_props, after, new_edge, vertices-after, edges-after, find_new, find_sponsor,
  ran,
}

pub find_sound {ℓ} :
    {A : Type ℓ} (p : A → Bool) (xs : List A) (a : A) → find p xs ≡ some a → p a ≡ true
find_sound p [] a h = ground arith
find_sound p (x ∷ xs) a h = ground (arith, find_sound p xs a)

-- a role that the graph accepts is no empty text
valid_role_text : (r : String) → is_valid_role (str r) ≡ true → str_eq r "" ≡ false
valid_role_text r h = elim (Bool-cases (str_eq r Names.steward)) [
  | inl e ↦ rw ((eq_iff r Names.steward).0 e)
  | inr a ↦ elim (Bool-cases (str_eq r Names.sponsor)) [
    | inl e ↦ rw ((eq_iff r Names.sponsor).0 e)
    | inr b ↦ elim (Bool-cases (str_eq r Names.user)) [
      | inl e ↦ rw ((eq_iff r Names.user).0 e)
      | inr c ↦ ground arith
    ]
  ]
]

valid_role_or_else :
    (role : Value) → is_valid_role role ≡ true → or_else role (str Names.user) ≡ role
valid_role_or_else (str r) h = rw (valid_role_text r h)
valid_role_or_else Value.null h = ground arith
valid_role_or_else (Value.bool b) h = ground arith
valid_role_or_else (Value.num k) h = ground arith
valid_role_or_else (Value.arr vs) h = ground arith
valid_role_or_else (Value.obj fs) h = ground arith

-- What `getNym`, `getRole`, `getSponsorFor` and `getAddNymTxn` say of a nym that a sponsor added.
pub record IsAdded (db : OrientDb) (n f t : String) (role : Value) (s : db.Store) : Type 0 where
  pub present : has_nym db (str n) s ≡ true
  pub has_role : get_role db (str n) s ≡ ok role
  pub sponsored : get_sponsor_for db (str n) s ≡ str f
  pub txn :
      get_add_nym_txn db (str n) s
      ≡ ok (
          some (
            (Names.txn_id, str t)
            ∷ (Names.role, role)
            ∷ (Names.identifier, str f)
            ∷ (Names.target_nym, str n)
            ∷ []))

module _ (db : OrientDb) (n f t : String) (role : Value) (txn : Object) (s : db.Store) (vf : Vertex)
    (unknown : has_nym db (str n) s ≡ false) (sponsor : get_nym db (str f) s ≡ some vf)
    (no_edge : edge_clash (edge_props db n f t role txn s vf) (db.edges EdgeClass.adds_nym s)
      ≡ false)
    (not_added : get_adds_nym_edge db (str n) s ≡ none) where
  abbrev final : db.Store
  final = after db n f t role txn s vf

  abbrev fresh : Vertex
  fresh = new db n f t role txn s vf

  abbrev added : Edge
  added = new_edge db n f t role txn s vf unknown sponsor no_edge

  abbrev edge : Edge
  edge = updated t txn added

  nym_final : get_nym db (str n) final ≡ some fresh
  unfolding get_nym
  nym_final =
      rw (vertices-after db n f t role txn s vf unknown sponsor)
        (find_new db n f t role txn s vf unknown sponsor)

  sponsor_final : get_nym db (str f) final ≡ some vf
  unfolding get_nym
  sponsor_final =
      rw (vertices-after db n f t role txn s vf unknown sponsor)
        (find_sponsor db n f t role txn s vf unknown sponsor)

  edge_added :
      find
        (λ (e : Edge). has_text Names.nym (str n) e.props)
        (db.edges EdgeClass.adds_nym s ++ added ∷ [])
      ≡ some added
  unfolding get_adds_nym_edge get lookup
  edge_added =
      find-append_none _ (db.edges EdgeClass.adds_nym s) (added ∷ [])
        (find_none _ (db.edges EdgeClass.adds_nym s) (rw not_added))
      ∙ (rw (eq_refl n))

  edge-final : get_adds_nym_edge db (str n) final ≡ some edge
  unfolding get_adds_nym_edge
  edge-final = rw (edges-after db n f t role txn s vf unknown sponsor no_edge) (
      find-updated Names.nym nym-Avoids t txn (str n) (db.edges EdgeClass.adds_nym s ++ added ∷ [])
      ∙ ap (Option.map (updated t txn)) edge_added)

  source_final :
      find (λ (v : Vertex). nat_eq v.rid edge.source) (db.vertices VertexClass.nym final) ≡ some vf
  unfolding get_nym
  source_final = rw (source-updated t (edge_updates txn_edge_props txn) added) (
      db.rid_unique VertexClass.nym final (λ (v : Vertex). has_text Names.nym (str f) v.props) vf
        sponsor_final)

  target_final :
      find (λ (v : Vertex). nat_eq v.rid edge.target) (db.vertices VertexClass.nym final)
      ≡ some fresh
  unfolding get_nym
  target_final = rw (target-updated t (edge_updates txn_edge_props txn) added) (
      db.rid_unique VertexClass.nym final (λ (v : Vertex). has_text Names.nym (str n) v.props) fresh
        nym_final)

  edge_txn_id : get Names.txn_id edge.props ≡ str t
  unfolding get lookup
  edge_txn_id = get-updated Names.txn_id txn_id-Avoids t txn added

  edge_role : get Names.role edge.props ≡ role
  unfolding get lookup
  edge_role = get-updated Names.role role-Avoids t txn added

  nym_props : (get Names.nym fresh.props ≡ str n) × (get Names.role fresh.props ≡ role)
  unfolding get lookup
  nym_props = (refl, refl)

  IsAdded-final :
      is_valid_role role ≡ true → get Names.nym vf.props ≡ str f → IsAdded db n f t role final
  unfolding has_nym get_role get_sponsor_for get_add_nym_txn
  IsAdded-final valid named = record {
    present = rw nym_final;
    has_role = rw nym_final (ap ok nym_props.1);
    sponsored = rw edge-final (rw source_final named);
    txn = rw edge-final (
        rw (source_final, target_final)
          (rw (edge_txn_id, edge_role, named, nym_props.0, valid_role_or_else role valid)));
  }

-- the nym of the record that `getNym` finds
get_nym_named :
    (db : OrientDb) (f : String) (s : db.Store) (v : Vertex)
    → get_nym db (str f) s ≡ some v
    → get Names.nym v.props ≡ str f
unfolding get_nym
get_nym_named db f s v h = is_str_eq (get Names.nym v.props) f (
    find_sound (λ (v : Vertex). has_text Names.nym (str f) v.props) (db.vertices VertexClass.nym s)
      v h)

module _ (db : OrientDb) (n f t : String) (txn : Object) (s : db.Store) (vf : Vertex) where
  abbrev txn_role : Value
  txn_role = or_else (get Names.role txn) (str Names.user)

  no_edge_clash :
      get_edge_by_txn_id db (str t) s ≡ none
      → edge_clash (edge_props db n f t txn_role txn s vf) (db.edges EdgeClass.adds_nym s) ≡ false
  unfolding get_edge_by_txn_id get lookup
  no_edge_clash unused = find_none _ (db.edges EdgeClass.adds_nym s) (rw unused)

  ran_to_graph :
      (fault : Exc → Result (Unit {0}))
      → lookup Names.target_nym txn ≡ some (str n)
      → lookup Names.txn_id txn ≡ some (str t)
      → get Names.identifier txn ≡ str f
      → truthy (str f) ≡ true
      → truthy (get Names.reference txn) ≡ false
      → is_valid_role txn_role ≡ true
      → get_nym db (str f) s ≡ some vf
      → has_nym db (str n) s ≡ false
      → get_edge_by_txn_id db (str t) s ≡ none
      → add_nym_txn_to_graph db fault txn s ≡ (ok tt, after db n f t txn_role txn s vf)
  unfolding add_nym_txn_to_graph
  ran_to_graph fault target id from named plain valid known unknown unused = rw valid (
      rw target (
        rw (
          ran db n f t txn_role txn s vf unknown known (no_edge_clash unused) from named plain id)))

-- A NYM transaction without a reference, with a valid role or none, from a nym that the graph has,
-- for a nym and a transaction id that it does not have and that no edge adds: `addNymTxnToGraph`
-- returns, and the graph then has the nym, with the role of the transaction or USER, the sender as
-- its sponsor, and the transaction as the one that added it.
pub add_nym_txn_to_graph-IsAdded :
    (db : OrientDb) (fault : Exc → Result (Unit {0})) (n f t : String) (txn : Object) (s : db.Store)
    → let role = or_else (get Names.role txn) (str Names.user) in
      lookup Names.target_nym txn ≡ some (str n)
      → lookup Names.txn_id txn ≡ some (str t)
      → get Names.identifier txn ≡ str f
      → truthy (str f) ≡ true
      → truthy (get Names.reference txn) ≡ false
      → is_valid_role role ≡ true
      → has_nym db (str f) s ≡ true
      → has_nym db (str n) s ≡ false
      → get_adds_nym_edge db (str n) s ≡ none
      → get_edge_by_txn_id db (str t) s ≡ none
      → let (r, s') = add_nym_txn_to_graph db fault txn s in (r ≡ ok tt) × IsAdded db n f t role s'
unfolding has_nym
add_nym_txn_to_graph-IsAdded db fault n f t txn s target id from named plain valid known unknown
      not_added unused =
    elim (Option-cases (get_nym db (str f) s)) [
      | inl missing ↦ absurd (not_known missing)
      | inr (vf, found) ↦
          rw
            (ran_to_graph db n f t txn s vf fault target id from named plain valid found unknown
              unused)
            (
              refl,
              IsAdded-final db n f t (txn_role db n f t txn s vf) txn s vf unknown found
                  (no_edge_clash db n f t txn s vf unused) not_added valid
                  (get_nym_named db f s vf found),
            )
    ]
  where
    not_known : get_nym db (str f) s ≡ none → ⊥
    not_known missing = false≢true (sym (ap is_some missing) ∙ known)
