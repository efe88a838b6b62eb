-- ===== src/Node/Execution/Synced.antt =====
-- The ledger and the identity graph of a node agree on the roles of the nyms.
use sovrin.Prelude.{
  ℕ, String, ◌≡◌, refl, Bool, true, false, Option, none, some, List, [], ◌∷◌, ◌++◌, if◌then◌else◌,
  String-Eq, ◌==◌, ◌∙◌, sym, ap, Option-cases, Bool-cases, inl, inr,
}
use sovrin.Python.Dict.{lookup, insert, update, lookup-insert}
use sovrin.Python.Value.{Value, num, str, Object, get, or_null, or_else, is_str}
use sovrin.Python.Result.{Result, ok, err}
use sovrin.Txn.{is_valid_role}
use sovrin.Txn.Names
use sovrin.Signing.{Request}
use sovrin.Graph.Db.{OrientDb}
use sovrin.Graph.Registry.{
  Registry, no_nyms, apply_txn, enroll, enroll_valid, first_of, replay, registry, role_or_user,
}
use sovrin.Graph.Registry.Frame.{
  add_attrib_txn_to_graph-SameNyms, add_cred_def_txn_to_graph-SameNyms,
  add_issuer_key_txn_to_graph-SameNyms,
}
use sovrin.Graph.Registry.Refines.{roles, add_nym_txn_to_graph-refines}
use sovrin.Node.Env.{Plenum, Ledger, nack, reply, already_added}
use sovrin.Node.Execution.{
  sender_key, generate_reply, ledger_entry, NodeState, store_txn_in_ledger, store_txn_in_graph,
  graph_action, graph_txn, take_sender, send_reply_to_client, store_txn_and_send_to_client,
  is_known_nym, act, do_custom_action,
}
use sovrin.Node.Execution.Effects.{Result-cases, log-take_sender, log-store_txn_in_graph}
use sovrin.Node.Execution.Kept.{
  ledger_entry-keeps, graph_txn-keeps, with_info-keeps, txn_type-IsKept, target_nym-IsKept,
  role-IsKept, txn_id-IsKept, IsKept,
}

-- Two transactions that hold the same under every key that is kept.
abbrev Alike : Object → Object → Type 0
Alike a b = (k : String) → IsKept k → lookup k a ≡ lookup k b

abbrev applied : (type target id role : Option Value) → Registry → Registry
applied type target id role reg n =
    let r = or_else (or_null role) (str Names.user) in
    if is_str (or_null type) Names.nym
    then enroll_valid (is_valid_role r) target id r reg n
    else reg n

apply_txn-applied :
    (a : Object) (reg : Registry) (n : String)
    → apply_txn a reg n
      ≡ applied
          (lookup Names.txn_type a)
          (lookup Names.target_nym a)
          (lookup Names.txn_id a)
          (lookup Names.role a)
          reg
          n
unfolding get
apply_txn-applied a reg n = refl

apply_txn-Alike :
    (a b : Object) (reg : Registry) (n : String) → Alike a b → apply_txn a reg n ≡ apply_txn b reg n
apply_txn-Alike a b reg n same =
    apply_txn-applied a reg n
    ∙ rw (same Names.txn_type txn_type-IsKept) (
        rw (same Names.target_nym target_nym-IsKept) (
          rw (same Names.txn_id txn_id-IsKept)
            (rw (same Names.role role-IsKept) (sym (apply_txn-applied b reg n)))))

module _ (reg reg' : Registry) (n : String) (e : reg n ≡ reg' n) where
  enroll-at : (v role : Value) → enroll v role reg n ≡ enroll v role reg' n
  enroll-at (str t) role =
      ap (λ (o : Option Value). first_of o (if t == n then some role else none)) e
  enroll-at v role = e

  enroll_valid-at :
      (b : Bool) (v id : Option Value) (role : Value)
      → enroll_valid b v id role reg n ≡ enroll_valid b v id role reg' n
  enroll_valid-at true (some v) (some id) role = enroll-at v role
  enroll_valid-at true (some v) none role = e
  enroll_valid-at true none id role = e
  enroll_valid-at false v id role = e

-- What a transaction does to a nym depends on that nym alone.
pub apply_txn-at :
    (a : Object) (reg reg' : Registry) (n : String)
    → reg n ≡ reg' n
    → apply_txn a reg n ≡ apply_txn a reg' n
apply_txn-at a reg reg' n e = elim (Bool-cases (is_str (get Names.txn_type a) Names.nym)) [
  | inl nym ↦ rw nym (
      enroll_valid-at reg reg' n e (is_valid_role (role_or_user a)) (lookup Names.target_nym a)
        (lookup Names.txn_id a) (role_or_user a))
  | inr other ↦ rw other e
]

replay-append :
    (ts : List Object) (a : Object) (reg : Registry) (n : String)
    → replay (ts ++ a ∷ []) reg n ≡ apply_txn a (replay ts reg) n
unfolding replay
replay-append [] a reg n = refl
replay-append (t ∷ ts) a reg n = replay-append ts a (apply_txn t reg) n

module _ (p : Plenum) (db : OrientDb) (l : Ledger) where
  graph_action-refines :
      (txn : Object) (g : db.Store) (n : String)
      → registry db (graph_action p db l txn g).1 n ≡ apply_txn txn (registry db g) n
  graph_action-refines txn g n = elim (Bool-cases (is_str (get Names.txn_type txn) Names.nym)) [
    | inl nym ↦ rw nym (add_nym_txn_to_graph-refines db p.fault txn g n)
    | inr other ↦ elim (Bool-cases (is_str (get Names.txn_type txn) Names.attrib)) [
      | inl attrib ↦
          rw (other, attrib)
            (roles db p.fault g _ n
              ((add_attrib_txn_to_graph-SameNyms db p.fault p.error txn).at g))
      | inr other' ↦ elim (Bool-cases (is_str (get Names.txn_type txn) Names.cred_def)) [
        | inl cred_def ↦
            rw (other, other', cred_def)
              (roles db p.fault g _ n ((add_cred_def_txn_to_graph-SameNyms db p.fault txn).at g))
        | inr other'' ↦ elim (Bool-cases (is_str (get Names.txn_type txn) Names.issuer_key)) [
          | inl key ↦
              rw (other, other', other'', key)
                (roles db p.fault g _ n
                  ((add_issuer_key_txn_to_graph-SameNyms db p.json_dumps p.fault txn).at g))
          | inr none_of_them ↦ rw (other, other', other'', none_of_them)
        ]
      ]
    ]
  ]

  no_type :
      (a : Object) (reg : Registry) (n : String)
      → lookup Names.txn_type a ≡ none
      → apply_txn a reg n ≡ reg n
  unfolding get
  no_type a reg n missing = rw missing

  store_untyped :
      (txn : Object) (s : NodeState p db l)
      → lookup Names.txn_type txn ≡ none
      → (store_txn_in_graph p db l txn s).1.graph ≡ s.graph
  unfolding store_txn_in_graph
  store_untyped txn s missing = rw missing

  store_typed :
      (txn : Object) (t : Value) (s : NodeState p db l) (n : String)
      → lookup Names.txn_type txn ≡ some t
      → registry db (store_txn_in_graph p db l txn s).1.graph n
        ≡ apply_txn (graph_txn txn) (registry db s.graph) n
  unfolding store_txn_in_graph
  store_typed txn t s n there = rw there (graph_action-refines (graph_txn txn) s.graph n)

  numbered_type :
      (x : Value) (own : Object)
      → lookup Names.txn_type (insert Names.seq_no x own) ≡ lookup Names.txn_type own
  numbered_type x own = rw (lookup-insert)

  -- what `storeTxnInGraph` does with a transaction and its number
  pub store_txn_in_graph-refines :
      (x : Value) (own : Object) (s : NodeState p db l) (n : String)
      → registry db (store_txn_in_graph p db l (insert Names.seq_no x own) s).1.graph n
        ≡ apply_txn own (registry db s.graph) n
  store_txn_in_graph-refines x own s n = elim (Option-cases (lookup Names.txn_type own)) [
    | inl missing ↦
        ap (λ (g : db.Store). registry db g n)
          (store_untyped (insert Names.seq_no x own) s (numbered_type x own ∙ missing))
        ∙ sym (no_type own (registry db s.graph) n missing)
    | inr (t, there) ↦
        store_typed (insert Names.seq_no x own) t s n (numbered_type x own ∙ there)
        ∙ apply_txn-Alike (graph_txn (insert Names.seq_no x own)) own (registry db s.graph) n
            (λ k kept. graph_txn-keeps k x own kept)
  ]

  -- The roles of the nyms in the graph are those that the ledger gives them, from the start.
  abbrev pub IsSynced : NodeState p db l → Type 0
  IsSynced s = (n : String) → registry db s.graph n ≡ replay (l.entries s.log) no_nyms n

  store_logged :
      (entry own : Object) (x : Value) (s t : NodeState p db l)
      → IsSynced s
      → l.entries t.log ≡ l.entries s.log ++ l.kept entry ∷ []
      → t.graph ≡ s.graph
      → Alike own (l.kept entry)
      → IsSynced (store_txn_in_graph p db l (insert Names.seq_no x own) t).1
  store_logged entry own x s t synced grown kept same n =
      store_txn_in_graph-refines x own t n
      ∙ apply_txn-Alike own (l.kept entry) (registry db t.graph) n same
      ∙ apply_txn-at (l.kept entry) (registry db t.graph) (replay (l.entries s.log) no_nyms) n
          (ap (λ (g : db.Store). registry db g n) kept ∙ synced n)
      ∙ sym (replay-append (l.entries s.log) (l.kept entry) no_nyms n)
      ∙ ap (λ (es : List Object). replay es no_nyms n)
          (sym (ap l.entries (log-store_txn_in_graph p db l (insert Names.seq_no x own) t) ∙ grown))

  -- the transaction, or its copy with the merkle information, that goes to the graph
  own-Alike :
      (txn entry : Object) (log : l.Log) (attrib : Bool)
      → ledger_entry p txn ≡ ok entry
      → Alike (if attrib then txn else update entry (l.append entry log).0) (l.kept entry)
  own-Alike txn entry log true made k kept =
      sym (l.lookup-kept entry k kept.is_field ∙ ledger_entry-keeps p txn entry k kept made)
  own-Alike txn entry log false made k kept =
      with_info-keeps l entry log k kept ∙ sym (l.lookup-kept entry k kept.is_field)

  store_txn-IsSynced :
      (txn : Object) (s : NodeState p db l)
      → IsSynced s
      → IsSynced (store_txn_and_send_to_client p db l txn s).1
  unfolding store_txn_and_send_to_client store_txn_in_ledger send_reply_to_client
  store_txn-IsSynced txn s synced = elim (Option-cases (lookup Names.txn_type txn)) [
    | inl missing ↦ rw missing synced
    | inr (t, there) ↦ elim (Result-cases (ledger_entry p txn)) [
      | inr (e, refused) ↦ rw (there, refused) synced
      | inl (entry, made) ↦
          rw (there, made)
            (let attrib = is_str (get Names.txn_type txn) Names.attrib in
              let with_info = update entry (l.append entry s.log).0 in
              let appended = record s { log = (l.append entry s.log).1 } in
              let key = sender_key (get Names.identifier with_info) (get Names.req_id with_info) in
              let sent = take_sender p db l key (reply with_info) appended in
              let kept = log-take_sender p db l key (reply with_info) appended in
              store_logged entry (if attrib then txn else with_info) (get Names.seq_no with_info) s
                sent synced (ap l.entries kept.0 ∙ l.entries-append entry s.log) kept.1
                (own-Alike txn entry s.log attrib made))
    ]
  ]

  act-IsSynced :
      (t : ℕ) (r : Request) (k : Result Bool) (s : NodeState p db l)
      → IsSynced s
      → IsSynced (act p db l t r k s).1
  act-IsSynced t r (err e) s synced = synced
  act-IsSynced t r (ok false) s synced = store_txn-IsSynced (generate_reply p t r) s synced
  act-IsSynced t r (ok true) s synced =
      let kept =
        log-take_sender p db l (sender_key r.identifier (num r.req_id))
          (nack r.req_id already_added) s in
      λ n.
        ap (λ (g : db.Store). registry db g n) kept.1
        ∙ synced n
        ∙ ap (λ (log : l.Log). replay (l.entries log) no_nyms n) (sym kept.0)

  -- An ordered request keeps the ledger and the graph in agreement on the roles of the nyms,
  -- whatever it holds, and also if its execution raises.
  pub do_custom_action-IsSynced :
      (t : ℕ) (r : Request) (s : NodeState p db l)
      → IsSynced s
      → IsSynced (do_custom_action p db l t r s).1
  unfolding do_custom_action
  do_custom_action-IsSynced t r s synced = act-IsSynced t r (is_known_nym p db l r s.graph) s synced
