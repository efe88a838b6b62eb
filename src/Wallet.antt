-- ===== src/Wallet.antt =====
-- sovrin/client/wallet/wallet.py: the items of a wallet, the queue of requests to be signed, the
-- requests that wait for a reply.
pub mod Items
pub mod IssuerKeys
pub mod Requests
pub mod Handlers
pub mod Replies
pub mod Sync
pub mod Draining
pub mod Tests
use sovrin.Prelude.{
  keep, find, nat_eq, ◌==◌, ℕ, ◌+◌, ◌<◌, ◌≤◌, ◌≡◌, String, Bool, true, false, not, Option, none,
  some, List, [], ◌∷◌, ◌++◌, map, length, if◌then◌else◌, leb, String-Eq, ℕ-Eq, Option-Eq, Pair-Eq,
  Eq,
}
use mathlib.Core.List.{reverse}
use sovrin.Python.Dict.{Dict, lookup, insert, update, contains, values}
use sovrin.Python.Value.{Value, null, num, str, Object, get, truthy, is_str}
use sovrin.Python.Result.{
  Exc, Result, ok, err, key_error, type_error, attribute_error, runtime_error, not_implemented,
  assertion, index_error, or_raise,
}
use sovrin.Python.Exec.{Exec, pure, raise, lift, gets, asks, modify, ◌>>=◌, ◌>>◌}
use sovrin.Txn.Names
use sovrin.Wallet.IssuerKeys.{IssuerKeyId, IssuerPubKey}
use sovrin.Wallet.Items.{
  Draft, Attribute, AttributeKey, attribute_key, attribute_ledger_request, attribute_get_request,
  Identity, identity_ledger_request, identity_get_request, is_sponsoring_role, has_string, CredDef,
  CredDefKey, cred_def_key, cred_def_request, cred_def_get_request,
}

-- What a pending request is about: the key beside it in the queue.
pub data Key : Type 0 where
  no_key : Key
  of_attribute : AttributeKey → Key
  of_identity : String → Key
  of_cred_def : CredDefKey → Key

-- A signed request. Signing gives it its number, and its identifier if it had none.
pub record Signed : Type 0 where
  pub identifier : String
  pub req_id : ℕ
  pub operation : Object

-- plenum's wallet: it signs requests, and keeps for each identifier the number of its last request.
-- A request of an identifier has a later number than those before it; nothing is said about the
-- numbers of two identifiers.
pub record Signer : Type 1 where
  pub Core : Type 0
  pub default_id : Core → Option String
  -- the identifiers that it has keys for
  pub ids : Core → List String
  pub sign_request : Core → Draft → Signed × Core
  pub last_req_id : Core → (identifier : String) → ℕ
  pub sign_request-later :
      (c : Core) (d : Draft)
      → let (r, c') = sign_request c d in last_req_id c r.identifier < r.req_id
  pub last_req_id-own :
      (c : Core) (d : Draft)
      → let (r, c') = sign_request c d in r.req_id ≤ last_req_id c' r.identifier
  pub last_req_id-grows :
      (c : Core) (d : Draft) (identifier : String)
      → last_req_id c identifier ≤ last_req_id (sign_request c d).1 identifier

-- A wallet keeps its queue as a deque, whose left end is the head of the list: a request enters on
-- the left and leaves on the right.
pub record Wallet (g : Signer) : Type 0 where
  pub core : g.Core
  pub attributes : Dict AttributeKey Attribute
  pub cred_defs : Dict CredDefKey CredDef
  pub sponsored : Dict String Identity
  pub known_ids : Dict String Identity
  pub last_known_seqs : Dict String ℕ
  pub issuer_keys : Dict IssuerKeyId IssuerPubKey
  pub pending : List (Draft × Key)
  pub prepared : Dict (String × ℕ) (Signed × Key)

-- the definition that `requestCredDef` starts from
abbrev pub new_cred_def : (name version : String) (origin : Option String) → CredDef
new_cred_def name version origin = record {
  name = name;
  version = version;
  origin = origin;
  seq_no = none;
  attr_names = [];
  typ = none;
}

-- `sorted(…, key=attrgetter("reqId"))`, which is stable
unfoldable pub insert_by_req_id : Signed → List Signed → List Signed
insert_by_req_id r [] = r ∷ []
insert_by_req_id r (q ∷ qs) =
    let rest = insert_by_req_id r qs in if leb r.req_id q.req_id then r ∷ q ∷ qs else q ∷ rest

unfoldable pub sort_by_req_id : List Signed → List Signed
unfolding insert_by_req_id
sort_by_req_id [] = []
sort_by_req_id (r ∷ rs) = insert_by_req_id r (sort_by_req_id rs)

abbrev pub prepared_key : Signed → String × ℕ
prepared_key r = (r.identifier, r.req_id)

module _ (g : Signer) where
  -- `pendRequest`
  unfoldable pub pend_request : Draft → Key → Wallet g → Wallet g
  pend_request d k w = record w { pending = (d, k) ∷ w.pending }

  abbrev pub pend_if : Option Draft → Key → Wallet g → Wallet g
  pend_if none k w = w
  pend_if (some d) k w = pend_request d k w

  -- the loop of `preparePending`, over the requests from the oldest to the newest
  unfoldable pub sign_all :
      List (Draft × Key)
      → g.Core
      → Dict (String × ℕ) (Signed × Key)
      → Dict (String × ℕ) (Signed × Key) × g.Core
  unfolding insert
  sign_all [] c new = (new, c)
  sign_all ((d, k) ∷ ds) c new =
      let (r, c') = g.sign_request c d in sign_all ds c' (insert (prepared_key r) (r, k) new)

  abbrev pub signed_of : (String × ℕ) × (Signed × Key) → Signed
  signed_of e = e.1.0

  -- `preparePending`
  unfoldable pub prepare_pending : Wallet g → List Signed × Wallet g
  unfolding sign_all sort_by_req_id update
  prepare_pending w =
      let (new, c) = sign_all (reverse w.pending) w.core [] in
      (
        sort_by_req_id (map signed_of new),
        record w { core = c; pending = []; prepared = update w.prepared new },
      )

  -- `addAttribute`, which returns the number of pending requests
  unfoldable pub add_attribute : Attribute → Exec (Wallet g) ℕ
  unfolding insert pend_request
  add_attribute a = do
    modify (λ w. record w { attributes = insert (attribute_key a) a w.attributes })
    draft ← lift (attribute_ledger_request a)
    modify (pend_if draft (of_attribute (attribute_key a)))
    gets (λ w. length w.pending)

  unfoldable pub get_attribute : AttributeKey → Wallet g → Option Attribute
  get_attribute k w = lookup k w.attributes

  -- `hasAttribute`: an attribute is an object, which is true
  unfoldable pub has_attribute : AttributeKey → Wallet g → Bool
  has_attribute k w = contains k w.attributes

  abbrev is_dest : String → Option String → Bool
  is_dest n none = false
  is_dest n (some d) = d == n

  unfoldable pub get_attributes_for_nym : String → Wallet g → List Attribute
  get_attributes_for_nym n w = keep (λ (a : Attribute). is_dest n a.dest) (values w.attributes)

  -- `getCredDef(seqNo=n)`; `get_cred_def_by_key` is `getCredDef(key)`
  abbrev is_number : ℕ → Option ℕ → Bool
  is_number n none = false
  is_number n (some m) = nat_eq m n

  unfoldable pub get_cred_def_by_key : CredDefKey → Wallet g → Option CredDef
  get_cred_def_by_key k w = lookup k w.cred_defs

  unfoldable pub get_cred_def_by_seq_no : ℕ → Wallet g → Option CredDef
  get_cred_def_by_seq_no n w = find (λ (c : CredDef). is_number n c.seq_no) (values w.cred_defs)

  unfoldable pub add_last_known_seqs : String → ℕ → Wallet g → Wallet g
  unfolding insert
  add_last_known_seqs i n w = record w { last_known_seqs = insert i n w.last_known_seqs }

  unfoldable pub get_last_known_seqs : String → Wallet g → Option ℕ
  get_last_known_seqs i w = lookup i w.last_known_seqs

  -- `addCredDef`
  unfoldable pub add_cred_def : (List String → String) → CredDef → Exec (Wallet g) ℕ
  unfolding insert pend_request
  add_cred_def join c = do
    modify (λ w. record w { cred_defs = insert (cred_def_key c) c w.cred_defs })
    draft ← lift (cred_def_request join c)
    modify (pend_if draft (of_cred_def (cred_def_key c)))
    gets (λ w. length w.pending)

  abbrev with_default : g.Core → Draft → Draft
  with_default c d = if has_string d.identifier then d else record d { identifier = g.default_id c }

  abbrev own_draft : g.Core → Option Draft → Option Draft
  own_draft c none = none
  own_draft c (some d) = some (with_default c d)

  -- `addSponsoredIdentity`
  unfoldable pub add_sponsored_identity : Identity → Exec (Wallet g) ℕ
  unfolding insert pend_request
  add_sponsored_identity i = do
    if is_sponsoring_role i.role then pure tt else raise attribute_error
    already ← gets (λ w. contains i.identifier w.sponsored)
    if already then raise runtime_error else pure tt
    modify (λ w. record w { sponsored = insert i.identifier i w.sponsored })
    modify
        (λ w. pend_if (own_draft w.core (identity_ledger_request i)) (of_identity i.identifier) w)
    gets (λ w. length w.pending)

  abbrev pub first_of_list : List Signed → Result Signed
  first_of_list [] = err index_error
  first_of_list (r ∷ rs) = ok r

  -- `prepReq`: all pending requests are prepared, and the first of them is returned
  unfoldable pub prep_req : Draft → Key → Exec (Wallet g) Signed
  unfolding pend_request prepare_pending
  prep_req d k w = let (rs, w') = prepare_pending (pend_request d k w) in (first_of_list rs, w')

  abbrev pub prep_if : Option Draft → Key → Exec (Wallet g) (Option Signed)
  prep_if none k = pure none
  prep_if (some d) k = do r ← prep_req d k; pure (some r)

  -- `requestAttribute`
  unfoldable pub request_attribute :
      Attribute → (sender : Option String) → Exec (Wallet g) (Option Signed)
  unfolding insert prep_req
  request_attribute a sender = do
    modify (λ w. record w { attributes = insert (attribute_key a) a w.attributes })
    prep_if (attribute_get_request a sender) (of_attribute (attribute_key a))

  -- `requestIdentity`
  unfoldable pub request_identity :
      Identity → (sender : Option String) → Exec (Wallet g) (Option Signed)
  unfolding insert prep_req
  request_identity i sender = do
    modify (λ w. record w { known_ids = insert i.identifier i w.known_ids })
    prep_if (identity_get_request i sender) no_key

  -- `requestCredDef`
  unfoldable pub request_cred_def :
      CredDefKey → (sender : Option String) → Exec (Wallet g) (Option Signed)
  unfolding insert prep_req
  request_cred_def (name, (version, origin)) sender = do
    let c = new_cred_def name version origin
    modify (λ w. record w { cred_defs = insert (name, (version, origin)) c w.cred_defs })
    prep_if (cred_def_get_request c sender) no_key
