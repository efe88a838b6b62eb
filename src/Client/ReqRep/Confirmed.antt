-- ===== src/Client/ReqRep/Confirmed.antt =====
-- What the replies to a request do to its record.
use sovrin.Prelude.{
  ℕ, String, ◌≡◌, refl, true, false, Option, none, some, List, [], ◌∷◌, map, find, length, nat_eq,
  ◌∙◌, Bool-cases, inl, inr, String-Eq, ◌==◌, if◌then◌else◌,
}
use sovrin.Python.Dict.{lookup, insert, lookup-insert}
use sovrin.Python.Value.{Value, str, Object, get}
use sovrin.Python.Result.{ok}
use sovrin.Txn.Names
use sovrin.Client.ReqRep.{
  ReqData, ReqDb, Replying, change_if, row, with_reply, with_txn, add_reply, request_confirmed,
  upsert_last_txn, select_last_txn, id_of,
}

abbrev mapped : (ReqData → ReqData) → Option ReqData → Option ReqData
mapped f none = none
mapped f (some r) = some (f r)

abbrev KeepsId : (ReqData → ReqData) → Type 0
KeepsId f = (r : ReqData) → (f r).req_id ≡ r.req_id

find-map :
    (n : ℕ) (f : ReqData → ReqData) (rs : List ReqData)
    → KeepsId f
    → find (λ (r : ReqData). nat_eq r.req_id n) (map (change_if n f) rs)
      ≡ mapped f (find (λ (r : ReqData). nat_eq r.req_id n) rs)
find-map n f [] keeps = refl
find-map n f (r ∷ rs) keeps = elim (Bool-cases (nat_eq r.req_id n)) [
  | inl own ↦ rw own (rw (keeps r) (rw own))
  | inr other ↦ rw other (rw other (find-map n f rs keeps))
]

module _ (c : Replying) (db : ReqDb) where
  row-update :
      (n : ℕ) (f : ReqData → ReqData) (s : db.Store)
      → KeepsId f
      → row c db n (db.update_rows n f s) ≡ mapped f (row c db n s)
  row-update n f s keeps = rw (db.rows-update_rows n f s) (find-map n f (db.rows s) keeps)

  module _ (n : ℕ) (a b i : String) (first second : Object) (s : db.Store) (r : ReqData) (t : Value)
      (held : row c db n s ≡ some r) (fresh : r.replies ≡ [])
      (id : lookup Names.txn_id first ≡ some (str i)) (named : (i == "") ≡ false)
      (type : lookup Names.txn_type first ≡ some t) where
    abbrev replied : ReqData
    replied = with_reply c db a (c.serialize first) r

    abbrev done : ReqData
    done = with_txn c db (str i) (get Names.txn_time first) t replied

    abbrev noted : db.Store
    noted = db.update_rows n (with_reply c db a (c.serialize first)) s

    noted-row : row c db n noted ≡ some replied
    noted-row = row-update n (with_reply c db a (c.serialize first)) s (λ r. refl) ∙ rw held

    one_reply : length replied.replies ≡ 1
    unfolding insert
    one_reply = rw fresh

    first-result :
        add_reply c db n a first s
        ≡ (ok 1, db.update_rows n (with_txn c db (str i) (get Names.txn_time first) t) noted)
    unfolding add_reply
    first-result = rw id (rw (noted-row, one_reply) (rw type))

    abbrev once : db.Store
    once = db.update_rows n (with_txn c db (str i) (get Names.txn_time first) t) noted

    once-row : row c db n once ≡ some done
    once-row =
        row-update n (with_txn c db (str i) (get Names.txn_time first) t) noted (λ r. refl)
        ∙ rw noted-row

    two_replies : (a == b) ≡ false → length (insert b (c.serialize second) replied.replies) ≡ 2
    unfolding insert
    two_replies differ = rw fresh (rw differ)

    twice-row :
        row c db n (db.update_rows n (with_reply c db b (c.serialize second)) once)
        ≡ some (with_reply c db b (c.serialize second) done)
    twice-row = row-update n (with_reply c db b (c.serialize second)) once (λ r. refl) ∙ rw once-row

    second-result :
        (j : Value)
        → (a == b) ≡ false
        → lookup Names.txn_id second ≡ some j
        → add_reply c db n b second once
          ≡ (ok 2, db.update_rows n (with_reply c db b (c.serialize second)) once)
    unfolding add_reply
    second-result j differ other = rw other (rw twice-row (rw (two_replies differ)))

    -- The first reply to a request confirms it, with its transaction's id; the reply of a second node
    -- is counted and leaves that id, whichever transaction it names.
    pub add_reply-first_wins :
        (j : Value)
        → (a == b) ≡ false
        → lookup Names.txn_id second ≡ some j
        → let (k, s') = add_reply c db n a first s in
          let (m, s'') = add_reply c db n b second s' in
          (k ≡ ok 1)
          × (request_confirmed c db n s' ≡ true)
          × (m ≡ ok 2)
          × (request_confirmed c db n s'' ≡ true)
          × (id_of c db (row c db n s'') ≡ str i)
    unfolding request_confirmed
    add_reply-first_wins j differ other = rw first-result (
        rw (second-result j differ other)
          (refl, rw once-row (rw named), refl, rw twice-row (rw named), rw twice-row))

  -- What was stored last for an identifier is what is read for it, however often it is stored, and
  -- the other identifiers keep theirs.
  pub select_last_txn-upsert_last_txn :
      (i j : String) (v : Value) (s : db.Store)
      → select_last_txn c db j (upsert_last_txn c db i v s)
        ≡ (if i == j then some v else select_last_txn c db j s)
  unfolding select_last_txn upsert_last_txn
  select_last_txn-upsert_last_txn i j v s =
      rw (db.last_txns-upsert_last i v s) (lookup-insert i j v (db.last_txns s))
