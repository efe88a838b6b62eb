-- ===== src/Graph/Replies/Typed.antt =====
-- The types of the transactions that the graph returns.
use sovrin.Prelude.{
  ℕ, ◌≡◌, ◌⊎◌, refl, ap, find, Bool, true, false, Option, none, some, List, [], ◌∷◌, arith, inl,
  inr, ◌∙◌, String-Eq, Bool-cases, ltb, length, map, subst, keep, if◌then◌else◌,
}
use sovrin.Python.Dict.{Dict, lookup, insert, update}
use sovrin.Python.Value.{Value, num, str, Object, get}
use sovrin.Python.Value.Equality.{Value-Eq}
use sovrin.Python.Result.{Result, ok, err, orient_command, ◌>>=◌}
use sovrin.Txn.Names
use sovrin.Graph.Db.{OrientDb, Vertex, Edge, VertexClass, EdgeClass}
use sovrin.Graph.Count.{txn_edges}
use sovrin.Graph.Replies.{
  Reader, make_result, made, int_of, get_edge_by_txn_type, get_txn, results_of, with_result,
  get_txns_from_edge, merge_txns, genesis_results, as_target, get_txns_without_edge, with_missing,
  not_found, get_result_for_txn_ids, distinct, cleaned, item, first_result, is_asked, same_request,
}

-- What `makeResult` returns: an empty dict, or one with a number and the type.
abbrev pub IsTyped : Value → Object → Type 0
IsTyped type o =
    (o ≡ [])
    ⊎ ((lookup Names.txn_type o ≡ some type) × ((n : ℕ) × (lookup Names.seq_no o ≡ some (num n))))

made-IsTyped :
    (q : Reader) (type : Value) (o : Object) (n : Option ℕ) → IsTyped type (made q type o n)
unfolding lookup
made-IsTyped q type o none = inl refl
made-IsTyped q type o (some n) = inr (refl, (n, refl))

-- A call that returns, as its first step and the rest.
bind-ok {ℓ κ} :
    {A : Type ℓ} {B : Type κ} (m : Result A) (f : A → Result B) (b : B)
    → (m >>= f) ≡ ok b
    → (a : A) × ((m ≡ ok a) × (f a ≡ ok b))
bind-ok (ok a) f b h = (a, (refl, h))
bind-ok (err e) f b h = ground arith

ok-injective {ℓ} : {A : Type ℓ} (a b : A) → Result.ok a ≡ ok b → a ≡ b
ok-injective a b h = ground arith

some-injective {ℓ} : {A : Type ℓ} (a b : A) → Option.some a ≡ some b → a ≡ b
some-injective a b h = ground arith

-- All transactions of a dict are typed NYM.
abbrev AllNyms : Dict Value Object → Type 0
AllNyms [] = Unit
AllNyms ((k, o) ∷ d) = IsTyped (str Names.nym) o × AllNyms d

AllNyms-insert :
    (n : Value) (r : Object) (d : Dict Value Object)
    → IsTyped (str Names.nym) r
    → AllNyms d
    → AllNyms (insert n r d)
unfolding insert
AllNyms-insert n r [] typed all = (typed, tt)
AllNyms-insert n r ((k, o) ∷ d) typed (first, rest) =
    let ih = AllNyms-insert n r d typed rest in
    elim (Bool-cases (Value-Eq.beq k n)) [
      | inl same ↦ rw same (typed, rest)
      | inr other ↦ rw other (first, ih)
    ]

AllNyms-update : (d e : Dict Value Object) → AllNyms d → AllNyms e → AllNyms (update d e)
unfolding update
AllNyms-update d [] all other = all
AllNyms-update d ((k, o) ∷ e) all (first, rest) =
    AllNyms-update (insert k o d) e (AllNyms-insert k o d first all) rest

chosen :
    (b : Bool) (r o : Object) (later : Option Object)
    → (if b then some r else later) ≡ some o
    → IsTyped (str Names.nym) r
    → (later ≡ some o → IsTyped (str Names.nym) o)
    → IsTyped (str Names.nym) o
chosen true r o later h typed rest = subst (IsTyped (str Names.nym)) (some-injective r o h) typed
chosen false r o later h typed rest = rest h

lookup-AllNyms :
    (d : Dict Value Object) (k : Value) (o : Object)
    → AllNyms d
    → lookup k d ≡ some o
    → IsTyped (str Names.nym) o
unfolding lookup
lookup-AllNyms [] k o all h = ground arith
lookup-AllNyms ((j, r) ∷ d) k o (first, rest) h =
    chosen (Value-Eq.beq j k) r o (lookup k d) h first (lookup-AllNyms d k o rest)

module _ (q : Reader) where
  make_result-IsTyped : (type : Value) (o r : Object) → make_result q type o ≡ ok r → IsTyped type r
  unfolding make_result
  make_result-IsTyped type o r h =
      let (n, (_, e)) =
        bind-ok (int_of q (get Names.seq_no o)) (λ (n : Option ℕ). ok (made q type o n)) r h in
      subst (IsTyped type) (ok-injective (made q type o n) r e) (made-IsTyped q type o n)

  module _ (db : OrientDb) where
    with_result-AllNyms :
        (o : Object) (out found : Dict Value Object)
        → with_result q db o out ≡ ok found
        → AllNyms out
        → AllNyms found
    with_result-AllNyms o out found h all =
        let (r, (made_, e)) =
          bind-ok (make_result q (str Names.nym) o)
            (λ (r : Object). item Names.seq_no o >>= λ (n : Value). ok (insert n r out)) found h in
        let (n, (_, e')) =
          bind-ok (item Names.seq_no o) (λ (n : Value). ok (insert n r out)) found e in
        subst AllNyms (ok-injective (insert n r out) found e')
          (AllNyms-insert n r out (make_result-IsTyped (str Names.nym) o r made_) all)

    results_of-AllNyms :
        (os : List Object) (out found : Dict Value Object)
        → results_of q db os out ≡ ok found
        → AllNyms out
        → AllNyms found
    unfolding results_of
    results_of-AllNyms [] out found h all = subst AllNyms (ok-injective out found h) all
    results_of-AllNyms ([] ∷ os) out found h all = results_of-AllNyms os out found h all
    results_of-AllNyms ((e ∷ o) ∷ os) out found h all =
        let (out', (first, rest)) =
          bind-ok (with_result q db (e ∷ o) out) (results_of q db os) found h in
        results_of-AllNyms os out' found rest (with_result-AllNyms (e ∷ o) out out' first all)

    genesis_results-AllNyms :
        (os : List Object) (out found : Dict Value Object)
        → genesis_results q db os out ≡ ok found
        → AllNyms out
        → AllNyms found
    unfolding genesis_results
    genesis_results-AllNyms [] out found h all = subst AllNyms (ok-injective out found h) all
    genesis_results-AllNyms ([] ∷ os) out found h all = genesis_results-AllNyms os out found h all
    genesis_results-AllNyms ((e ∷ o) ∷ os) out found h all =
        let (o', (_, later)) =
          bind-ok (as_target q db (e ∷ o))
            (λ (o' : Object). with_result q db o' out >>= genesis_results q db os) found h in
        let (out', (first, rest)) =
          bind-ok (with_result q db o' out) (genesis_results q db os) found later in
        genesis_results-AllNyms os out' found rest (with_result-AllNyms o' out out' first all)

    from_edge-AllNyms :
        (ids : List Value) (since : Value) (c : EdgeClass) (s : db.Store)
        (found : Dict Value Object)
        → get_txns_from_edge q db ids since c s ≡ ok found
        → AllNyms found
    unfolding get_txns_from_edge
    from_edge-AllNyms ids since c s found h =
        results_of-AllNyms
          (map (λ (e : Edge). cleaned q db c s e)
            (keep (λ (e : Edge). is_asked q db ids since e.props) (db.edges c s)))
          [] found h tt

    merge_txns-AllNyms :
        (ids : List Value) (since : Value) (cs : List EdgeClass) (s : db.Store)
        (found : Dict Value Object)
        → merge_txns q db ids since cs s ≡ ok found
        → AllNyms found
    unfolding merge_txns
    merge_txns-AllNyms ids since [] s found h = subst AllNyms (ok-injective [] found h) tt
    merge_txns-AllNyms ids since (c ∷ cs) s found h =
        let (first, (e, later)) =
          bind-ok (get_txns_from_edge q db ids since c s)
            (λ (first : Dict Value Object).
              merge_txns q db ids since cs s >>= λ (others : Dict Value Object).
              ok (update first others))
            found h in
        let (others, (e', both)) =
          bind-ok (merge_txns q db ids since cs s)
            (λ (others : Dict Value Object). ok (update first others)) found later in
        subst AllNyms (ok-injective (update first others) found both) (
          AllNyms-update first others (from_edge-AllNyms ids since c s first e)
            (merge_txns-AllNyms ids since cs s others e'))

    filled-AllNyms :
        (b : Bool) (ids : List Value) (since : Value) (s : db.Store) (found all : Dict Value Object)
        → (if b
            then get_txns_without_edge q db ids since s
              >>= (λ (others : Dict Value Object). ok (update found others))
            else ok found)
          ≡ ok all
        → AllNyms found
        → AllNyms all
    unfolding get_txns_without_edge
    filled-AllNyms true ids since s found all h before =
        let (others, (e, both)) =
          bind-ok (get_txns_without_edge q db ids since s)
            (λ (others : Dict Value Object). ok (update found others)) all h in
        subst AllNyms (ok-injective (update found others) all both) (
          AllNyms-update found others before (
            genesis_results-AllNyms
              (keep (λ (o : Object). is_asked q db ids since o)
                (map (λ (v : Vertex). v.props) (db.vertices VertexClass.nym s)))
              [] others e tt))
    filled-AllNyms false ids since s found all h before =
        subst AllNyms (ok-injective found all h) before

    -- Every transaction that `getResultForTxnIds` returns, whatever edge it is read from, is typed
    -- NYM, or is empty.
    pub get_result_for_txn_ids-IsTyped :
        (ids : List Value) (since : Value) (s : db.Store) (found : Dict Value Object)
        → get_result_for_txn_ids q db ids since s ≡ ok found
        → (k : Value) (o : Object) → lookup k found ≡ some o
        → IsTyped (str Names.nym) o
    unfolding get_result_for_txn_ids
    get_result_for_txn_ids-IsTyped ids since s found h k o there =
        let (merged, (e, later)) =
          bind-ok (merge_txns q db (distinct ids) since txn_edges s)
            (with_missing q db (distinct ids) since s) found h in
        lookup-AllNyms found k o
          (filled-AllNyms (ltb (length merged) (length (distinct ids)))
            (not_found q db (distinct ids) merged) since s merged found later
            (merge_txns-AllNyms (distinct ids) since txn_edges s merged e))
          there

    result-IsTyped :
        (type : Value) (s : db.Store) (o : Object) (c : EdgeClass) (e : Option Edge)
        → first_result q db type c s e ≡ ok (some o)
        → IsTyped type o
    result-IsTyped type s o c none h = ground arith
    result-IsTyped type s o c (some e) h =
        let (r, (made_, same)) =
          bind-ok (make_result q type (cleaned q db c s e)) (λ (r : Object). ok (some r)) (some o)
            h in
        make_result-IsTyped type (cleaned q db c s e) o (
          made_
          ∙ ap (λ (x : Object). Result.ok x)
              (some-injective r o (ok-injective (some r) (some o) same)))

    class-IsTyped :
        (i r type : Value) (s : db.Store) (o : Object) (c : Option EdgeClass)
        → (elim c [
          | none ↦ err orient_command
          | some c ↦ first_result q db type c s (find (same_request q db i r) (db.edges c s))
        ])
          ≡ ok (some o)
        → IsTyped type o
    class-IsTyped i r type s o none h = ground arith
    class-IsTyped i r type s o (some c) h =
        result-IsTyped type s o c (find (same_request q db i r) (db.edges c s)) h

    -- The transaction that `getTxn` returns has the type that was asked for and a number, or it is
    -- empty.
    pub get_txn-IsTyped :
        (i r type : Value) (s : db.Store) (o : Object)
        → get_txn q db i r type s ≡ ok (some o)
        → IsTyped type o
    unfolding get_txn
    get_txn-IsTyped i r type s o h = class-IsTyped i r type s o (get_edge_by_txn_type type) h
