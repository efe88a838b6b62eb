-- ===== src/Node/Startup/Once.antt =====
-- What ordered requests for a nym that the graph has do to the ledger and the graph.
use sovrin.Prelude.{
  ℕ, String, ◌≡◌, refl, Bool, true, false, not, Option, none, some, List, [], ◌∷◌, keep, ◌&&◌,
  if◌then◌else◌, String-Eq, ◌∙◌, sym, ap, subst, Option-cases, Bool-cases, inl, inr, arith,
}
use sovrin.Python.Dict.{lookup, update}
use sovrin.Python.Value.{Value, str, Object, get, is_str, is_str_eq}
use sovrin.Python.Result.{Result, ok, err}
use sovrin.Txn.{is_valid_role}
use sovrin.Txn.Names
use sovrin.Signing.{Request}
use sovrin.Graph.Db.{OrientDb}
use sovrin.Graph.Nyms.{has_nym, get_nym}
use sovrin.Graph.Registry.{Registry, apply_txn, enroll, enroll_valid, registry, role_or_user}
use sovrin.Node.Env.{Plenum, Ledger}
use sovrin.Node.Execution.{generate_reply, ledger_entry, NodeState, is_known_nym, do_custom_action}
use sovrin.Node.Execution.Synced.{store_txn_in_graph-refines}
use sovrin.Node.Execution.World.{
  World, world_of, to_graph, stored_txn, store_in, act_in, execute_in, graph-store_txn_in_graph,
  world-do_custom_action,
}
use sovrin.Node.Startup.Restart.{execute_all}

-- a NYM request for the nym
abbrev asks_for : String → Request → Bool
asks_for n r =
    is_str (get Names.txn_type r.operation) Names.nym && is_str (get Names.target_nym r.operation) n

-- the requests that are not NYM requests for the nym
abbrev others : String → List (ℕ × Request) → List (ℕ × Request)
others n = keep (λ (e : ℕ × Request). not (asks_for n e.1))

get_found : (k s : String) (d : Object) → is_str (get k d) s ≡ true → lookup k d ≡ some (str s)
unfolding get
get_found k s d h = elim (Option-cases (lookup k d)) [
  | inl missing ↦ absurd (ground arith)
  | inr (v, there) ↦ rw there (ap some (is_str_eq v s (rw there at h)))
]

module _ (reg : Registry) (n : String) (role : Value) (known : reg n ≡ some role) where
  enroll-keeps : (v r : Value) → enroll v r reg n ≡ some role
  enroll-keeps (str t) r = rw known
  enroll-keeps v r = known

  enroll_valid-keeps :
      (b : Bool) (v id : Option Value) (r : Value) → enroll_valid b v id r reg n ≡ some role
  enroll_valid-keeps true (some v) (some id) r = enroll-keeps v r
  enroll_valid-keeps true (some v) none r = known
  enroll_valid-keeps true none id r = known
  enroll_valid-keeps false v id r = known

  apply_txn-keeps : (txn : Object) → apply_txn txn reg n ≡ some role
  apply_txn-keeps txn = elim (Bool-cases (is_str (get Names.txn_type txn) Names.nym)) [
    | inl nym ↦ rw nym (
        enroll_valid-keeps (is_valid_role (role_or_user txn)) (lookup Names.target_nym txn)
          (lookup Names.txn_id txn) (role_or_user txn))
    | inr other ↦ rw other known
  ]

module _ (p : Plenum) (db : OrientDb) (l : Ledger) where
  known-registered :
      (n : String) (g : db.Store)
      → has_nym db (str n) g ≡ true
      → (role : Value) × (registry db g n ≡ some role)
  unfolding has_nym get_nym
  known-registered n g known = elim (Option-cases (get_nym db (str n) g)) [
    | inl missing ↦ absurd (ground arith)
    | inr (v, there) ↦ (get Names.role v.props, rw there)
  ]

  registered-known :
      (n : String) (g : db.Store) (role : Value)
      → registry db g n ≡ some role
      → has_nym db (str n) g ≡ true
  unfolding has_nym get_nym
  registered-known n g role h = elim (Option-cases (get_nym db (str n) g)) [
    | inl missing ↦ absurd (ground arith)
    | inr (v, there) ↦ rw there
  ]

  -- A nym that is registered stays so.
  store_in-keeps :
      (n : String) (txn : Object) (t : Option Value) (e : Result Object) (s : NodeState p db l)
      → has_nym db (str n) s.graph ≡ true
      → has_nym db (str n) (store_in p db l txn t e (world_of p db l s)).1 ≡ true
  store_in-keeps n txn none e s known = known
  store_in-keeps n txn (some t) (err e) s known = known
  store_in-keeps n txn (some t) (ok entry) s known =
      let with_info = update entry (l.append entry s.log).0 in
      let own = if is_str (get Names.txn_type txn) Names.attrib then txn else with_info in
      let (role, registered) = known-registered n s.graph known in
      registered-known n (to_graph p db l (stored_txn p db l txn entry s.log) s.graph) role (
        ap (λ (g : db.Store). registry db g n)
          (sym (graph-store_txn_in_graph p db l (stored_txn p db l txn entry s.log) s))
        ∙ store_txn_in_graph-refines p db l (get Names.seq_no with_info) own s n
        ∙ apply_txn-keeps (registry db s.graph) n role registered own)

  act_in-keeps :
      (n : String) (t : ℕ) (r : Request) (k : Result Bool) (s : NodeState p db l)
      → has_nym db (str n) s.graph ≡ true
      → has_nym db (str n) (act_in p db l t r k (world_of p db l s)).1 ≡ true
  act_in-keeps n t r (err e) s known = known
  act_in-keeps n t r (ok true) s known = known
  act_in-keeps n t r (ok false) s known =
      let txn = generate_reply p t r in
      store_in-keeps n txn (lookup Names.txn_type txn) (ledger_entry p txn) s known

  -- A NYM request for a nym that the graph has does nothing to them.
  execute_in-known :
      (n : String) (t : ℕ) (r : Request) (w : World p db l)
      → has_nym db (str n) w.1 ≡ true
      → asks_for n r ≡ true
      → execute_in p db l t r w ≡ w
  unfolding is_known_nym
  execute_in-known n t r w known asked =
      let typed = get_found Names.txn_type Names.nym r.operation (ground arith) in
      let named = get_found Names.target_nym n r.operation (ground arith) in
      rw (typed, named) (rw known)

  execute_all-without :
      (rs : List (ℕ × Request)) (s u : NodeState p db l) (n : String)
      → has_nym db (str n) s.graph ≡ true
      → world_of p db l s ≡ world_of p db l u
      → world_of p db l (execute_all p db l rs s)
        ≡ world_of p db l (execute_all p db l (others n rs) u)
  execute_all-without [] s u n known same = same
  execute_all-without ((t, r) ∷ rs) s u n known same =
      let s' = (do_custom_action p db l t r s).1 in
      let u' = (do_custom_action p db l t r u).1 in
      let done = world-do_custom_action p db l t r s in
      let still =
        subst (λ (w : World p db l). has_nym db (str n) w.1 ≡ true) (sym done)
          (act_in-keeps n t r (is_known_nym p db l r s.graph) s known) in
      elim (Bool-cases (asks_for n r)) [
        | inl asked ↦ rw asked (
            execute_all-without rs s' u n still
              (done ∙ execute_in-known n t r (world_of p db l s) known asked ∙ same))
        | inr other ↦ rw other (
            execute_all-without rs s' u' n still
              (done ∙ ap (execute_in p db l t r) same ∙ sym (world-do_custom_action p db l t r u)))
      ]

  -- Once the graph has a nym, ordered NYM requests for it have no effect on the ledger and the
  -- graph: any ordered requests lead to the same ledger and the same graph as those of them that
  -- are not NYM requests for the nym, whatever the requests raise and whoever waits for them.
  pub execute_all-known_nym :
      (rs : List (ℕ × Request)) (s : NodeState p db l) (n : String)
      → has_nym db (str n) s.graph ≡ true
      → let a = execute_all p db l rs s in
        let b = execute_all p db l (others n rs) s in (a.log ≡ b.log) × (a.graph ≡ b.graph)
  execute_all-known_nym rs s n known =
      let same = execute_all-without rs s s n known refl in
      (ap (λ (w : World p db l). w.0) same, ap (λ (w : World p db l). w.1) same)
