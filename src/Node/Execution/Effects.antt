-- ===== src/Node/Execution/Effects.antt =====
-- What the execution of an ordered request does to the ledger, the graph and the waiting clients.
use sovrin.Prelude.{
  ℕ, String, ◌≡◌, refl, true, false, Option, none, some, List, [], ◌∷◌, ◌++◌, if◌then◌else◌,
  String-Eq, ℕ-Eq, Pair-Eq, Option-cases, inl, inr, sym, ◌∙◌, ◌⊎◌, ap,
}
use mathlib.Core.List.{append-nil}
use sovrin.Python.Dict.{
  lookup, insert, update, contains_of_lookup, lookup-insert, lookup-insert_self,
}
use sovrin.Python.Value.{Value, str, Object, get, is_str}
use sovrin.Python.Result.{Exc, Result, ok, err}
use sovrin.Python.Exec.{◌>>◌}
use sovrin.Txn.Names
use sovrin.Signing.{Request, hash_key}
use sovrin.Graph.Db.{OrientDb}
use sovrin.Node.Env.{Plenum, Ledger, Message, reply}
use sovrin.Node.Execution.{
  sender_key, generate_reply, ledger_entry, NodeState, store_txn_in_ledger, store_txn_in_graph,
  take_sender, send_reply_to_client, store_txn_and_send_to_client, is_known_nym, do_custom_action,
}

pub Result-cases {ℓ} :
    {A : Type ℓ} (r : Result A) → ((a : A) × (r ≡ ok a)) ⊎ ((e : Exc) × (r ≡ err e))
Result-cases (ok a) = inl (a, refl)
Result-cases (err e) = inr (e, refl)

-- The ledger entry of an attribute with raw data has the hash of the data in their place, and is
-- otherwise the transaction.
pub ledger_entry-raw :
    (p : Plenum) (result entry : Object) (s : String)
    → is_str (get Names.txn_type result) Names.attrib ≡ true
    → lookup Names.raw result ≡ some (str s)
    → ledger_entry p result ≡ ok entry
    → (lookup Names.raw entry ≡ some (str (p.sha256 s)))
      × ((k : String) → String-Eq.beq Names.raw k ≡ false → lookup k entry ≡ lookup k result)
unfolding ledger_entry hash_key
ledger_entry-raw p result entry s attribute raw h =
    let hashed : ◌≡◌ {A = Result Object} (ok (insert Names.raw (str (p.sha256 s)) result))
        (ok entry) =
      rw (attribute, contains_of_lookup Names.raw (str s) result raw, raw) at h in
    let e : insert Names.raw (str (p.sha256 s)) result ≡ entry = cc in
    (
      rw (← e) (lookup-insert_self Names.raw (str (p.sha256 s)) result),
      λ k other. rw (← e) (rw (lookup-insert, other)),
    )

module _ (p : Plenum) (db : OrientDb) (l : Ledger) where
  -- the entry that a transaction adds, as the ledger keeps it, if it has a type and its data can be hashed
  abbrev pub logged : Option Value → Result Object → List Object
  logged none r = []
  logged (some t) (err e) = []
  logged (some t) (ok entry) = l.kept entry ∷ []

  pub log-take_sender :
      (k : Option (String × ℕ)) (m : Message) (s : NodeState p db l)
      → ((take_sender p db l k m s).log ≡ s.log) × ((take_sender p db l k m s).graph ≡ s.graph)
  log-take_sender none m s = (refl, refl)
  log-take_sender (some k) m s = elim (Option-cases (lookup k s.request_sender)) [
    | inl missing ↦ rw (missing, take_sender) (refl, refl)
    | inr (to, there) ↦ rw (there, take_sender) (refl, refl)
  ]

  pub log-store_txn_in_graph :
      (txn : Object) (s : NodeState p db l) → (store_txn_in_graph p db l txn s).1.log ≡ s.log
  unfolding store_txn_in_graph
  log-store_txn_in_graph txn s = elim (Option-cases (lookup Names.txn_type txn)) [
    | inl missing ↦ rw missing
    | inr (t, there) ↦ rw there
  ]

  log-send_and_store :
      (with_info txn : Object) (s : NodeState p db l)
      → ((send_reply_to_client p db l with_info >> store_txn_in_graph p db l txn) s).1.log ≡ s.log
  unfolding send_reply_to_client
  log-send_and_store with_info txn s =
      let key = sender_key (get Names.identifier with_info) (get Names.req_id with_info) in
      log-store_txn_in_graph txn (take_sender p db l key (reply with_info) s)
      ∙ (log-take_sender key (reply with_info) s).0

  -- Storing a transaction appends its entry to the ledger, one entry or none, and nothing that the
  -- graph or a client does changes the ledger.
  pub store_txn-entries :
      (txn : Object) (s : NodeState p db l)
      → l.entries (store_txn_and_send_to_client p db l txn s).1.log
        ≡ l.entries s.log ++ logged (lookup Names.txn_type txn) (ledger_entry p txn)
  unfolding store_txn_and_send_to_client store_txn_in_ledger
  store_txn-entries txn s = elim (Option-cases (lookup Names.txn_type txn)) [
    | inl missing ↦ rw missing (sym (append-nil (l.entries s.log)))
    | inr (t, there) ↦ elim (Result-cases (ledger_entry p txn)) [
      | inr (e, refused) ↦ rw (there, refused) (sym (append-nil (l.entries s.log)))
      | inl (entry, made) ↦
          rw (there, made)
            (let with_info = update entry (l.append entry s.log).0 in
              let own = if is_str (get Names.txn_type txn) Names.attrib then txn else with_info in
              ap l.entries (
                log-send_and_store with_info (insert Names.seq_no (get Names.seq_no with_info) own)
                  (record s { log = (l.append entry s.log).1 }))
              ∙ l.entries-append entry s.log)
    ]
  ]

  -- An ordered request that is not for a known nym appends the entry of its transaction, as the
  -- ledger keeps it, if that has a type and its data can be hashed, and nothing else.
  pub do_custom_action-entries :
      (t : ℕ) (r : Request) (s : NodeState p db l)
      → is_known_nym p db l r s.graph ≡ ok false
      → l.entries (do_custom_action p db l t r s).1.log
        ≡ l.entries s.log
          ++ logged
              (lookup Names.txn_type (generate_reply p t r))
              (ledger_entry p (generate_reply p t r))
  unfolding do_custom_action
  do_custom_action-entries t r s new = rw new (store_txn-entries (generate_reply p t r) s)
