-- ===== src/Wallet/Requests.antt =====
-- The order in which a wallet prepares its pending requests, and what a reply does to an attribute.
use sovrin.Prelude.{
  ℕ, ◌<◌, ◌≤◌, String, ◌≡◌, refl, Bool, true, false, none, some, List, [], ◌∷◌, ◌++◌, map, all,
  keep, arith, leb, nat_eq, Option-Eq, String-Eq, ℕ-Eq, Pair-Eq, ◌∙◌, ap, sym, ◌==◌, subst,
  Bool-cases, inl, inr, eq_iff,
}
use mathlib.Core.List.{reverse, append_assoc, append-nil}
use sovrin.Python.Dict.{Dict, insert, lookup, lookup-insert, lookup-insert_self}
use sovrin.Python.Value.{num, Object}
use sovrin.Python.Result.{ok}
use sovrin.Txn.Names
use sovrin.Wallet.Items.{Draft, Attribute, AttributeKey, attribute_ledger_request}
use sovrin.Wallet.{
  Key, Signed, Signer, Wallet, insert_by_req_id, sort_by_req_id, prepared_key, sign_all,
  prepare_pending, signed_of, of_attribute, get_attribute,
}
use sovrin.Wallet.Handlers.{seq_no_of, attrib_reply}

abbrev Prepared : Type 0
Prepared = Dict (String × ℕ) (Signed × Key)

-- every number of a prepared request is at most the last number of its identifier
abbrev numbers_below : (String → ℕ) → Prepared → Bool
numbers_below last new = all (λ (e : (String × ℕ) × (Signed × Key)). leb e.0.1 (last e.0.0)) new

insert-fresh :
    (last : String → ℕ) (m : ℕ) (i : String) (v : Signed × Key) (new : Prepared)
    → numbers_below last new ≡ true
    → last i < m
    → insert (i, m) v new ≡ new ++ ((i, m), v) ∷ []
unfolding insert
insert-fresh last m i v [] below h = refl
insert-fresh last m i v (((j, n), u) ∷ new) below h =
    let rest = insert-fresh last m i v new in
    elim (Bool-cases (j == i)) [
      | inl same ↦ let at_i = ap last ((eq_iff j i).0 same) in ground (arith, rest)
      | inr other ↦ ground (arith, rest)
    ]

numbers_below-append :
    (last last' : String → ℕ) (m : ℕ) (i : String) (v : Signed × Key) (new : Prepared)
    → numbers_below last new ≡ true
    → ((j : String) → last j ≤ last' j)
    → m ≤ last' i
    → numbers_below last' (new ++ ((i, m), v) ∷ []) ≡ true
numbers_below-append last last' m i v [] below grows h = ground arith
numbers_below-append last last' m i v (((j, n), u) ∷ new) below grows h =
    let later = grows j in
    let rest = numbers_below-append last last' m i v new in ground (arith, rest)

map_signed-append :
    (g : Signer) (new : Prepared) (k : String × ℕ) (r : Signed) (q : Key)
    → map (signed_of g) (new ++ (k, (r, q)) ∷ []) ≡ map (signed_of g) new ++ r ∷ []
map_signed-append g [] k r q = refl
map_signed-append g (e ∷ new) k r q =
    ap (λ (t : List Signed). signed_of g e ∷ t) (map_signed-append g new k r q)

-- the requests of one identifier
abbrev pub requests_of : String → List Signed → List Signed
requests_of i = keep (λ (r : Signed). r.identifier == i)

module _ (g : Signer) where
  -- the requests signed one after the other
  abbrev pub signed_in_order : List (Draft × Key) → g.Core → List Signed
  signed_in_order [] c = []
  signed_in_order ((d, k) ∷ ds) c =
      (g.sign_request c d).0 ∷ signed_in_order ds (g.sign_request c d).1

  signed-sign_all :
      (ds : List (Draft × Key)) (c : g.Core) (new : Prepared)
      → numbers_below (g.last_req_id c) new ≡ true
      → map (signed_of g) (sign_all g ds c new).0 ≡ map (signed_of g) new ++ signed_in_order ds c
  unfolding sign_all
  signed-sign_all [] c new below = sym (append-nil (map (signed_of g) new))
  signed-sign_all ((d, k) ∷ ds) c new below =
      let (r, c') = g.sign_request c d in
      ap (λ (e : Prepared). map (signed_of g) (sign_all g ds c' e).0)
        (insert-fresh (g.last_req_id c) r.req_id r.identifier (r, k) new below
          (g.sign_request-later c d))
      ∙ signed-sign_all ds c' (new ++ (prepared_key r, (r, k)) ∷ []) (
          numbers_below-append (g.last_req_id c) (g.last_req_id c') r.req_id r.identifier (r, k) new
            below (g.last_req_id-grows c d) (g.last_req_id-own c d))
      ∙ ap (λ (t : List Signed). t ++ signed_in_order ds c')
          (map_signed-append g new (prepared_key r) r k)
      ∙ append_assoc (map (signed_of g) new) (r ∷ []) (signed_in_order ds c')

  -- every request of the identifier has a number from `n` on
  abbrev numbers_from : ℕ → String → List Signed → Bool
  numbers_from n i rs = all (λ (r : Signed). leb n r.req_id) (requests_of i rs)

  insert-other :
      (r : Signed) (i : String) (rs : List Signed)
      → (r.identifier == i) ≡ false
      → requests_of i (insert_by_req_id r rs) ≡ requests_of i rs
  unfolding insert_by_req_id
  insert-other r i [] other = rw other
  insert-other r i (q ∷ qs) other = let rest = insert-other r i qs other in ground (arith, rest)

  insert-own :
      (r : Signed) (i : String) (rs : List Signed)
      → (r.identifier == i) ≡ true
      → numbers_from r.req_id i rs ≡ true
      → requests_of i (insert_by_req_id r rs) ≡ r ∷ requests_of i rs
  unfolding insert_by_req_id
  insert-own r i [] own later = rw own
  insert-own r i (q ∷ qs) own later = let rest = insert-own r i qs own in ground (arith, rest)

  signed-numbers_from :
      (ds : List (Draft × Key)) (c : g.Core) (n : ℕ) (i : String)
      → n ≤ g.last_req_id c i
      → numbers_from n i (signed_in_order ds c) ≡ true
  signed-numbers_from [] c n i h = refl
  signed-numbers_from ((d, k) ∷ ds) c n i h =
      let (r, c') = g.sign_request c d in
      let later = g.sign_request-later c d in
      let grows = g.last_req_id-grows c d i in
      let rest = signed-numbers_from ds c' n i in
      elim (Bool-cases (r.identifier == i)) [
        | inl own ↦
            let at_i = ap (g.last_req_id c) ((eq_iff r.identifier i).0 own) in ground (arith, rest)
        | inr other ↦ ground (arith, rest)
      ]

  sort-signed_in_order :
      (ds : List (Draft × Key)) (c : g.Core) (i : String)
      → requests_of i (sort_by_req_id (signed_in_order ds c)) ≡ requests_of i (signed_in_order ds c)
  unfolding sort_by_req_id
  sort-signed_in_order [] c i = refl
  sort-signed_in_order ((d, k) ∷ ds) c i =
      let (r, c') = g.sign_request c d in
      let sorted = sort-signed_in_order ds c' i in
      elim (Bool-cases (r.identifier == i)) [
        | inl own ↦
            let at_i = ap (g.last_req_id c') ((eq_iff r.identifier i).0 own) in
            let from =
              signed-numbers_from ds c' r.req_id i
                (subst (λ n. r.req_id ≤ n) at_i (g.last_req_id-own c d)) in
            rw own (
              insert-own r i (sort_by_req_id (signed_in_order ds c')) own (rw sorted from)
              ∙ ap (λ (t : List Signed). r ∷ t) sorted)
        | inr other ↦
            rw other (insert-other r i (sort_by_req_id (signed_in_order ds c')) other ∙ sorted)
      ]

  -- `preparePending` empties the queue, and of the requests that it returns those of each
  -- identifier are its pending requests, all of them, signed one after the other in the order in
  -- which they were submitted: the oldest, at the right end of the queue, first.
  pub prepare_pending-in_order :
      (w : Wallet g) (i : String)
      → (requests_of i (prepare_pending g w).0
          ≡ requests_of i (signed_in_order (reverse w.pending) w.core))
        × ((prepare_pending g w).1.pending ≡ [])
  unfolding prepare_pending
  prepare_pending-in_order w i = (
    rw (signed-sign_all (reverse w.pending) w.core [] refl)
        (sort-signed_in_order (reverse w.pending) w.core i),
    refl,
  )

  -- The reply to the request of an attribute gives the attribute its sequence number, which is not
  -- 0, and leaves the others; from then on the attribute generates no request for the ledger.
  pub attrib_reply-settled :
      (result : Object) (k : AttributeKey) (a : Attribute) (n : ℕ) (w : Wallet g)
      → lookup k w.attributes ≡ some a
      → lookup Names.seq_no result ≡ some (num n)
      → nat_eq n 0 ≡ false
      → let (r, w') = attrib_reply g result (of_attribute k) w in
        let settled = record a { seq_no = some n } in
        (r ≡ ok tt)
        × (get_attribute g k w' ≡ some settled)
        × ((j : AttributeKey) → (k == j) ≡ false → get_attribute g j w' ≡ get_attribute g j w)
        × (attribute_ledger_request settled ≡ ok none)
  unfolding attrib_reply get_attribute attribute_ledger_request
  attrib_reply-settled result k a n w found number given =
      rw (found, number_read)
        (
          refl,
          lookup-insert_self k (record a { seq_no = some n }) w.attributes,
          λ j other. rw (lookup-insert, other),
          ground arith,
        )
    where
      number_read : seq_no_of g result ≡ ok (some n)
      number_read = rw (number, seq_no_of)
