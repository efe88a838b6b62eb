-- ===== src/Wallet/Replies/Dispatch.antt =====
-- Which replies a wallet takes, and the way of an attribute from its request to the reply.
use sovrin.Prelude.{ℕ, String, ◌≡◌, refl, none, some, [], ◌∷◌, String-Eq, Option-Eq, ℕ-Eq, Pair-Eq}
use sovrin.Python.Dict.{lookup, insert, update, lookup-insert_self}
use sovrin.Python.Value.{str, num, Object, get}
use sovrin.Python.Result.{ok, err, runtime_error}
use sovrin.Txn.Names
use sovrin.Wallet.Items.{Draft, Attribute, AttributeKey, attribute_key, attribute_ledger_request}
use sovrin.Wallet.{
  Signed, Signer, Wallet, of_attribute, pend_request, prepare_pending, add_attribute, get_attribute,
  sign_all, prepared_key,
}
use sovrin.Wallet.Handlers.{attrib_reply, seq_no_of}
use sovrin.Wallet.Replies.{Outer, handle_incoming_reply}

module _ (x : Outer) (g : Signer) where
  -- A reply to a request that the wallet has not prepared raises a RuntimeError, whatever the reply
  -- holds beside its identifier, and changes nothing.
  pub handle_incoming_reply-unprepared :
      (n : ℕ) (i : String) (result : Object) (w : Wallet g)
      → lookup Names.identifier result ≡ some (str i)
      → lookup (i, n) w.prepared ≡ none
      → handle_incoming_reply x g n result w ≡ (err runtime_error, w)
  unfolding handle_incoming_reply
  handle_incoming_reply-unprepared n i result w from absent = rw from (rw absent)

  -- the handler of an attribute that the wallet has, for a request that it has prepared
  attrib-handled :
      (a : Attribute) (k : AttributeKey) (q : Signed) (n : ℕ) (result : Object) (v : Wallet g)
      → lookup (prepared_key q) v.prepared ≡ some (q, of_attribute k)
      → lookup k v.attributes ≡ some a
      → lookup Names.identifier result ≡ some (str q.identifier)
      → lookup Names.txn_type result ≡ some (str Names.attrib)
      → lookup Names.seq_no result ≡ some (num n)
      → let (r, w') = handle_incoming_reply x g q.req_id result v in
        (r ≡ ok tt) × (get_attribute g k w' ≡ some (record a { seq_no = some n }))
  unfolding handle_incoming_reply attrib_reply get_attribute get
  attrib-handled a k q n result v waits held from typed numbered = rw from (
      rw waits (
        rw typed (
          rw (seq_no_of, numbered)
            (rw held (refl, lookup-insert_self k (record a { seq_no = some n }) v.attributes)))))

  queued :
      (a : Attribute) (d : Draft) (w : Wallet g)
      → w.pending ≡ []
      → attribute_ledger_request a ≡ ok (some d)
      → (add_attribute g a w).1 ≡ record w {
        attributes = insert (attribute_key a) a w.attributes;
        pending = (d, of_attribute (attribute_key a)) ∷ [];
      }
  unfolding add_attribute pend_request
  queued a d w idle asked = rw asked (rw idle)

  -- A wallet without pending requests that gets an attribute with a request for the ledger, prepares
  -- it, and receives the reply to it, has the attribute with the number of the reply.
  pub add_attribute-replied :
      (a : Attribute) (d : Draft) (n : ℕ) (result : Object) (w : Wallet g)
      → w.pending ≡ []
      → attribute_ledger_request a ≡ ok (some d)
      → lookup Names.identifier result ≡ some (str (g.sign_request w.core d).0.identifier)
      → lookup Names.txn_type result ≡ some (str Names.attrib)
      → lookup Names.seq_no result ≡ some (num n)
      → let added = (add_attribute g a w).1 in
        let prepared = (prepare_pending g added).1 in
        let (r, w') =
          handle_incoming_reply x g (g.sign_request w.core d).0.req_id result prepared in
        (r ≡ ok tt) × (get_attribute g (attribute_key a) w' ≡ some (record a { seq_no = some n }))
  unfolding prepare_pending sign_all update insert
  add_attribute-replied a d n result w idle asked from typed numbered =
      rw (queued a d w idle asked) (
        attrib-handled a (attribute_key a) (g.sign_request w.core d).0 n result
          (prepare_pending g (record w {
            attributes = insert (attribute_key a) a w.attributes;
            pending = (d, of_attribute (attribute_key a)) ∷ [];
          })).1
          (lookup-insert_self (prepared_key (g.sign_request w.core d).0)
            ((g.sign_request w.core d).0, of_attribute (attribute_key a)) w.prepared)
          (lookup-insert_self (attribute_key a) a w.attributes) from typed numbered)
