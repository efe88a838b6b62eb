-- ===== src/Node/Execution/World.antt =====
-- What the execution of an ordered request does to the ledger and the graph, without the clients.
use sovrin.Prelude.{
  ℕ, ◌≡◌, refl, Bool, true, false, Option, none, some, if◌then◌else◌, String-Eq, ◌∙◌, ap,
  Option-cases, inl, inr,
}
use sovrin.Python.Dict.{lookup, insert, update}
use sovrin.Python.Value.{Value, num, Object, get, is_str}
use sovrin.Python.Result.{Result, ok, err}
use sovrin.Txn.Names
use sovrin.Signing.{Request}
use sovrin.Graph.Db.{OrientDb}
use sovrin.Node.Env.{Plenum, Ledger, nack, reply, already_added}
use sovrin.Node.Execution.{
  sender_key, generate_reply, ledger_entry, NodeState, store_txn_in_ledger, store_txn_in_graph,
  graph_action, graph_txn, take_sender, send_reply_to_client, store_txn_and_send_to_client,
  is_known_nym, act, do_custom_action,
}
use sovrin.Node.Execution.Effects.{Result-cases, log-take_sender, log-store_txn_in_graph}

pair_path {ℓ κ} :
    {A : Type ℓ} {B : Type κ} {a c : A} {b d : B} → a ≡ c → b ≡ d → ◌≡◌ {A = A × B} (a, b) (c, d)
pair_path e f = rw (e, f)

module _ (p : Plenum) (db : OrientDb) (l : Ledger) where
  -- the ledger and the graph
  abbrev pub World : Type 0
  World = l.Log × db.Store

  abbrev pub world_of : NodeState p db l → World
  world_of s = (s.log, s.graph)

  abbrev to_graph_typed : Option Value → Object → db.Store → db.Store
  to_graph_typed none txn g = g
  to_graph_typed (some t) txn g = (graph_action p db l (graph_txn txn) g).1

  abbrev pub to_graph : Object → db.Store → db.Store
  to_graph txn g = to_graph_typed (lookup Names.txn_type txn) txn g

  pub graph-store_txn_in_graph :
      (txn : Object) (s : NodeState p db l)
      → (store_txn_in_graph p db l txn s).1.graph ≡ to_graph txn s.graph
  unfolding store_txn_in_graph
  graph-store_txn_in_graph txn s = elim (Option-cases (lookup Names.txn_type txn)) [
    | inl missing ↦ rw missing
    | inr (t, there) ↦ rw there
  ]

  -- what storing a transaction does to them
  abbrev pub stored_txn : Object → Object → l.Log → Object
  stored_txn txn entry log =
      let with_info = update entry (l.append entry log).0 in
      insert Names.seq_no (get Names.seq_no with_info)
        (if is_str (get Names.txn_type txn) Names.attrib then txn else with_info)

  abbrev pub store_in : Object → Option Value → Result Object → World → World
  store_in txn (some t) (ok entry) (log, g) =
      ((l.append entry log).1, to_graph (stored_txn txn entry log) g)
  store_in txn (some t) (err e) w = w
  store_in txn none r w = w

  stored :
      (txn entry : Object) (t : Value) (s : NodeState p db l)
      → lookup Names.txn_type txn ≡ some t
      → ledger_entry p txn ≡ ok entry
      → ◌≡◌ {A = World}
          (world_of (store_txn_and_send_to_client p db l txn s).1)
          ((l.append entry s.log).1, to_graph (stored_txn txn entry s.log) s.graph)
  unfolding store_txn_and_send_to_client store_txn_in_ledger send_reply_to_client
  stored txn entry t s typed made =
      rw (typed, made)
        (let with_info = update entry (l.append entry s.log).0 in
          let appended = record s { log = (l.append entry s.log).1 } in
          let key = sender_key (get Names.identifier with_info) (get Names.req_id with_info) in
          let sent = take_sender p db l key (reply with_info) appended in
          let same = log-take_sender p db l key (reply with_info) appended in
          pair_path (log-store_txn_in_graph p db l (stored_txn txn entry s.log) sent ∙ same.0) (
            graph-store_txn_in_graph (stored_txn txn entry s.log) sent
            ∙ ap (to_graph (stored_txn txn entry s.log)) same.1))

  world-store_txn :
      (txn : Object) (s : NodeState p db l)
      → world_of (store_txn_and_send_to_client p db l txn s).1
        ≡ store_in txn (lookup Names.txn_type txn) (ledger_entry p txn) (world_of s)
  unfolding store_txn_and_send_to_client store_txn_in_ledger
  world-store_txn txn s = elim (Option-cases (lookup Names.txn_type txn)) [
    | inl missing ↦ rw missing
    | inr (t, typed) ↦ elim (Result-cases (ledger_entry p txn)) [
      | inr (e, refused) ↦ rw (typed, refused)
      | inl (entry, made) ↦ stored txn entry t s typed made ∙ (rw (typed, made))
    ]
  ]

  -- what the execution of a request does to them
  abbrev pub act_in : ℕ → Request → Result Bool → World → World
  act_in t r (ok false) w =
      let txn = generate_reply p t r in
      store_in txn (lookup Names.txn_type txn) (ledger_entry p txn) w
  act_in t r (ok true) w = w
  act_in t r (err e) w = w

  abbrev pub execute_in : ℕ → Request → World → World
  execute_in t r w = act_in t r (is_known_nym p db l r w.1) w

  world-act :
      (t : ℕ) (r : Request) (k : Result Bool) (s : NodeState p db l)
      → world_of (act p db l t r k s).1 ≡ act_in t r k (world_of s)
  world-act t r (err e) s = refl
  world-act t r (ok false) s = world-store_txn (generate_reply p t r) s
  world-act t r (ok true) s =
      let same =
        log-take_sender p db l (sender_key r.identifier (num r.req_id))
          (nack r.req_id already_added) s in
      pair_path same.0 same.1

  pub world-do_custom_action :
      (t : ℕ) (r : Request) (s : NodeState p db l)
      → world_of (do_custom_action p db l t r s).1 ≡ execute_in t r (world_of s)
  unfolding do_custom_action
  world-do_custom_action t r s = world-act t r (is_known_nym p db l r s.graph) s
