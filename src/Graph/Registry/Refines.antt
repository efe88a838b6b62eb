-- ===== src/Graph/Registry/Refines.antt =====
-- The identity graph implements the registry of `Registry`: every addition of a transaction, also
-- one that fails, does to the roles of the nyms what the specification says.
use sovrin.Prelude.{
  String, ◌≡◌, refl, Bool, true, Option, none, some, List, [], ◌∷◌, ◌++◌, any, arith, String-Eq,
  if◌then◌else◌, ◌∙◌, ap, sym, Bool-cases, Option-cases, inl, inr, ◌==◌, eq_iff,
}
use sovrin.Python.Dict.{lookup}
use sovrin.Python.Value.{Value, str, Object, get, truthy}
use sovrin.Python.Result.{Exc, Result}
use sovrin.Python.Exec.{pure, ◌>>=◌, catching}
use sovrin.Python.Exec.Relates.{relates_rules, rest-Relates, handler-Relates}
use sovrin.Txn.{is_valid_role}
use sovrin.Txn.Names
use sovrin.Graph.Db.{OrientDb, Vertex, VertexClass, EdgeClass, same_text}
use sovrin.Graph.Nyms.{
  has_text, nym_props, add_nym_edge, add_nym, try_add_nym, nym_failed, update_txn_id_edge,
  add_nym_txn_to_graph,
}
use sovrin.Graph.Registry.{first_of, enroll, enroll_txn, role_or_user, roles_in, registry}
use sovrin.Graph.Registry.Frame.{
  SameNyms, SameNyms-preorder, add_nym_edge-SameNyms, update_txn_id_edge-SameNyms,
  nym_failed-SameNyms,
}

roles_in-append :
    (vs : List Vertex) (v : Vertex) (n : String)
    → roles_in (vs ++ v ∷ []) n
      ≡ first_of
          (roles_in vs n)
          (if has_text Names.nym (str n) v.props then some (get Names.role v.props) else none)
roles_in-append [] v n = ground arith
roles_in-append (w ∷ vs) v n = ground (arith, roles_in-append vs v n)

roles_in-clash :
    (vs : List Vertex) (t n : String) (o : Value)
    → any (λ (v : Vertex). same_text (str t) (get Names.nym v.props)) vs ≡ true
    → first_of (roles_in vs n) (if t == n then some o else none) ≡ roles_in vs n
roles_in-clash [] t n o h = ground arith
roles_in-clash (w ∷ vs) t n o h = ground (arith, eq_iff t n, roles_in-clash vs t n o)

first_of-none : (o : Option Value) → first_of o none ≡ o
first_of-none none = refl
first_of-none (some r) = refl

module _ (db : OrientDb) (id role frm seq : Value) (s : db.Store) where
  abbrev props : Value → Object
  props v = nym_props id v role frm seq

  get-props_nym : (v : Value) → get Names.nym (props v) ≡ v
  unfolding get lookup
  get-props_nym v = ground arith

  get-props_role : (v : Value) → get Names.role (props v) ≡ role
  unfolding get lookup
  get-props_role v = ground arith

  abbrev clash : Value → Bool
  clash v =
      any (λ (w : Vertex). same_text v (get Names.nym w.props)) (db.vertices VertexClass.nym s)

  abbrev added : Value → Vertex
  added v = record { rid = db.next_rid VertexClass.nym s; props = props v }

  create_vertex-roles :
      (v : Value) (n : String)
      → registry db (db.create_vertex VertexClass.nym (props v) s).1 n ≡ (
          if clash v
          then registry db s n
          else first_of (registry db s n) (if same_text (str n) v then some role else none))
  create_vertex-roles v n = elim (Bool-cases (clash v)) [
    | inl h ↦ rw h (
        ap (λ (vs : List Vertex). roles_in vs n)
          (db.vertices-create_vertex VertexClass.nym VertexClass.nym (props v) s
            ∙ rw get-props_nym (rw h)))
    | inr h ↦ rw h (
        ap (λ (vs : List Vertex). roles_in vs n)
          (db.vertices-create_vertex VertexClass.nym VertexClass.nym (props v) s
            ∙ rw get-props_nym (rw h))
        ∙ roles_in-append (db.vertices VertexClass.nym s) (added v) n
        ∙ rw (get-props_nym, get-props_role))
  ]

  create_vertex-enroll :
      (v : Value) (n : String)
      → registry db (db.create_vertex VertexClass.nym (props v) s).1 n
        ≡ enroll v role (registry db s) n
  create_vertex-enroll (str t) n = elim (Bool-cases (clash (str t))) [
    | inl h ↦
        create_vertex-roles (str t) n
        ∙ rw h (sym (roles_in-clash (db.vertices VertexClass.nym s) t n role h))
    | inr h ↦ create_vertex-roles (str t) n ∙ rw h
  ]
  create_vertex-enroll v n =
      create_vertex-roles v n ∙ ground (arith, first_of-none (registry db s n))

module _ (db : OrientDb) (fault : Exc → Result (Unit {0})) where
  -- the same nym vertices have the same roles
  pub roles : (s t : db.Store) (n : String) → SameNyms db s t → registry db t n ≡ registry db s n
  roles s t n e = ap (λ (vs : List Vertex). roles_in vs n) e

  add_nym-enroll :
      (id v role frm r q : Value) (s : db.Store) (n : String)
      → registry db (add_nym db id v role frm r q s).1 n ≡ enroll v role (registry db s) n
  unfolding add_nym
  add_nym-enroll id v role frm r q s n =
      roles (db.create_vertex VertexClass.nym (nym_props id v role frm q) s).1
        (add_nym db id v role frm r q s).1 n
        (rest-Relates (SameNyms-preorder db)
          (db.create_vertex VertexClass.nym (nym_props id v role frm q))
          (λ (w : Vertex). if truthy frm then add_nym_edge db id v role frm r else pure tt)
          (λ w. search (relates_rules, SameNyms-preorder, add_nym_edge-SameNyms)) s)
      ∙ create_vertex-enroll db id role frm q s v n

  try_add_nym-enroll :
      (v role id : Value) (txn : Object) (s : db.Store) (n : String)
      → lookup Names.txn_id txn ≡ some id
      → registry db (try_add_nym db v role txn s).1 n ≡ enroll v role (registry db s) n
  unfolding try_add_nym
  try_add_nym-enroll v role id txn s n has = rw has (
      let m =
        add_nym db id v role (get Names.identifier txn) (get Names.reference txn)
          (get Names.seq_no txn) in
      roles (m s).1 ((m >>= λ u. update_txn_id_edge db id EdgeClass.adds_nym txn) s).1 n (
        rest-Relates (SameNyms-preorder db) m (λ u. update_txn_id_edge db id EdgeClass.adds_nym txn)
          (λ u. update_txn_id_edge-SameNyms db id EdgeClass.adds_nym txn) s)
      ∙ add_nym-enroll id v role (get Names.identifier txn) (get Names.reference txn)
          (get Names.seq_no txn) s n)

  try_add_nym-no_id :
      (v role : Value) (txn : Object) (s : db.Store)
      → lookup Names.txn_id txn ≡ none
      → (try_add_nym db v role txn s).1 ≡ s
  unfolding try_add_nym
  try_add_nym-no_id v role txn s missing = rw missing

  handled :
      (v role : Value) (txn : Object) (s : db.Store) (n : String)
      → registry db (catching (try_add_nym db v role txn) (nym_failed db fault) s).1 n
        ≡ registry db (try_add_nym db v role txn s).1 n
  handled v role txn s n =
      roles (try_add_nym db v role txn s).1
        (catching (try_add_nym db v role txn) (nym_failed db fault) s).1 n
        (handler-Relates (SameNyms-preorder db) (try_add_nym db v role txn) (nym_failed db fault)
          (nym_failed-SameNyms db fault) s)

  -- Whatever transaction `addNymTxnToGraph` gets, in whatever state, and whether it returns or
  -- raises, it does to the roles of the nyms what the registry does: a first valid entry of a nym
  -- gives it its role, and nothing else changes a role.
  pub add_nym_txn_to_graph-refines :
      (txn : Object) (s : db.Store) (n : String)
      → registry db (add_nym_txn_to_graph db fault txn s).1 n ≡ enroll_txn txn (registry db s) n
  unfolding add_nym_txn_to_graph
  add_nym_txn_to_graph-refines txn s n = elim (Bool-cases (is_valid_role (role_or_user txn))) [
    | inr invalid ↦ rw invalid
    | inl valid ↦ elim (Option-cases (lookup Names.target_nym txn)) [
      | inl missing ↦ rw valid (rw missing)
      | inr (v, named) ↦ elim (Option-cases (lookup Names.txn_id txn)) [
        | inl missing ↦ rw valid (
            rw (named, missing)
              (handled v (role_or_user txn) txn s n
                ∙ ap (λ (t : db.Store). registry db t n)
                    (try_add_nym-no_id v (role_or_user txn) txn s missing)))
        | inr (id, has) ↦ rw valid (
            rw (named, has)
              (handled v (role_or_user txn) txn s n
                ∙ try_add_nym-enroll v (role_or_user txn) id txn s n has))
      ]
    ]
  ]
