-- ===== src/Cli/Requests.antt =====
-- The commands that write to the ledger or ask it: `_getRole`, `_addNym`, `_addAttribToNym`,
-- `_getNym`, `_sendNymAction`, `_sendAttribAction`, `_addGenesisAction` and `canMakeSovrinRequest`.
-- plenum's `submitReqs` returns the requests that it is given.
pub mod Submitted
use sovrin.Prelude.{
  cat, ℕ, String, Bool, true, false, not, Option, none, some, List, [], ◌∷◌, ◌++◌, if◌then◌else◌,
  String-Eq, ◌==◌, ◌&&◌, ◌||◌, ◌+◌, nat_eq, Option-Eq,
}
use sovrin.Python.Value.{Value, null, str, truthy, Object}
use sovrin.Python.Result.{
  Exc, Result, ok, err, value_error, attribute_error, runtime_error, assertion, or_raise,
  raise_unless,
}
use sovrin.Python.Exec.{Exec, pure, raise, lift, gets, modify, catching, ◌>>=◌, ◌>>◌}
use sovrin.Txn.Names
use sovrin.Wallet.Items.{
  Attribute, LedgerStore, attribute_key, Identity, new_identity, has_string, opt_str, is_given,
}
use sovrin.Wallet.{
  Signed, Signer, Wallet, prepare_pending, add_sponsored_identity, add_attribute, request_identity,
}
use sovrin.Cli.{
  Terminal, Shell, nym_added, attribute_added, nym_received, print, print_all,
  print_not_connected_env_message, on_wallet, submit_reqs, call_later,
}

-- `req, = …`
abbrev pub only_of : List Signed → Result Signed
only_of (r ∷ []) = ok r
only_of _ = err value_error

-- `x.get(…) if x.get(…) else None`, of a text
abbrev pub given : Option String → Option String
given t = if has_string t then t else none

abbrev truthy_opt : Option Value → Bool
truthy_opt none = false
truthy_opt (some v) = truthy v

abbrev count : Bool → ℕ
count true = 1
count false = 0

abbrev or_value : Option Value → Value
or_value none = null
or_value (some v) = v

abbrev some_of : Result Value → Result (Option Value)
some_of (ok v) = ok (some v)
some_of (err e) = err e

-- the attribute that `_addAttribToNym` makes
abbrev pub new_attribute : (name : String) → Value → (origin dest : Option String) → Attribute
new_attribute name content origin dest = record {
  name = name;
  value = content;
  origin = origin;
  dest = dest;
  ledger_store = LedgerStore.raw;
  seq_no = none;
}

module _ {g : Signer} (x : Terminal g) where
  -- `canMakeSovrinRequest`
  unfoldable pub can_make_sovrin_request : Exec (Shell g) Bool
  unfolding print_all print_not_connected_env_message
  can_make_sovrin_request = do
    key ← gets (λ s. x.has_any_key s.wallet.core)
    print_all (key.1)
    env ← gets (λ s. s.active_env)
    if not (key.0)
        then pure false
        else if is_given env
        then pure true
        else (do print_not_connected_env_message x; pure false)

  -- `_getRole`: False and None are no role both
  unfoldable pub get_role : Option String → Exec (Shell g) (Option String)
  unfolding print
  get_role none = pure none
  get_role (some r) =
      if r == "" || r == Names.sponsor || r == Names.steward
      then pure (some r)
      else (do print "Invalid role. Valid roles are: SPONSOR, STEWARD"; pure none)

  abbrev already_added : Exc → Exec (Wallet g) Unit
  already_added runtime_error = pure tt
  already_added e = raise e

  abbrev add_identity : (nym : String) → (role : Option String) → Exec (Wallet g) Unit
  add_identity nym role = do
    idy ← lift (new_identity nym none role)
    catching (do add_sponsored_identity g idy; pure tt) already_added

  -- `preparePending` and `submitReqs`, of which one request has to come back
  unfoldable pub submit_one : Exec (Shell g) Signed
  unfolding prepare_pending submit_reqs
  submit_one = do
    reqs ← on_wallet (λ w. let (rs, w') = prepare_pending g w in (ok rs, w'))
    submit_reqs reqs
    lift (only_of reqs)

  abbrev for_client : Option String → String
  for_client none = ""
  for_client (some name) = if name == "" then "" else cat (" for " ∷ name ∷ [])

  -- `_addNym`
  unfoldable pub add_nym :
      (nym : String) → (role other_client_name : Option String) → Exec (Shell g) Unit
  unfolding new_identity add_sponsored_identity submit_one print call_later
  add_nym nym role other = do
    on_wallet (add_identity nym role)
    req ← submit_one
    print (cat ("Adding nym " ∷ nym ∷ for_client other ∷ []))
    call_later req.req_id nym_added

  -- `_addAttribToNym`; every attribute is made for `LedgerStore.RAW`
  unfoldable pub add_attrib_to_nym :
      (nym : String)
      → (raw : Option String) → (enc : Option Value) → (hsh : Option String) → Exec (Shell g) Unit
  unfolding add_attribute submit_one print call_later
  add_attrib_to_nym nym raw enc hsh = do
    lift (
        raise_unless
          (nat_eq (count (has_string raw) + count (truthy_opt enc) + count (has_string hsh)) 1)
          assertion)
    let content =
        if has_string raw then opt_str raw else if truthy_opt enc then or_value enc else opt_str hsh
    own ← gets (λ s. g.default_id s.wallet.core)
    let attrib =
        new_attribute x.random_name content own (if own == some nym then none else some nym)
    on_wallet (add_attribute g attrib)
    req ← submit_one
    print (cat ("Adding attributes " ∷ x.printer.value_text content ∷ " for " ∷ nym ∷ []))
    call_later req.req_id (attribute_added (attribute_key attrib))

  -- `_getNym`
  unfoldable pub get_nym : String → Exec (Shell g) Unit
  unfolding new_identity request_identity submit_reqs print call_later
  get_nym nym = do
    idy ← lift (new_identity nym none none)
    sender ← gets (λ s. g.default_id s.wallet.core)
    asked ← on_wallet (request_identity g idy sender)
    req ← lift (or_raise attribute_error asked)
    submit_reqs (req ∷ [])
    print (cat ("Getting nym " ∷ nym ∷ []))
    call_later req.req_id (nym_received nym)

  -- `_sendNymAction`
  unfoldable pub send_nym_action : (dest_id : String) → (role : Option String) → Exec (Shell g) Unit
  unfolding can_make_sovrin_request get_role add_nym
  send_nym_action dest_id role = do
    can ← can_make_sovrin_request
    if can then (do valid ← get_role role; add_nym dest_id valid none) else pure tt

  abbrev literal : Option String → Result (Option Value)
  literal none = ok none
  literal (some t) = some_of (x.literal_eval t)

  -- `_sendAttribAction`
  unfoldable pub send_attrib_action :
      (dest_id : String) → (raw enc hsh : Option String) → Exec (Shell g) Unit
  unfolding can_make_sovrin_request add_attrib_to_nym
  send_attrib_action dest_id raw enc hsh = do
    can ← can_make_sovrin_request
    if can
        then (do
          parsed ← lift (literal (given enc))
          add_attrib_to_nym dest_id (given raw) parsed (given hsh))
        else pure tt

  -- `_addGenesisAction`
  unfoldable pub add_genesis_action :
      (dest_id : String) → (role : Option String) → Exec (Shell g) Unit
  unfolding get_role print
  add_genesis_action dest_id role = do
    valid ← get_role role
    r ← lift (or_raise attribute_error valid)
    modify (λ s. record s {
      genesis =
          s.genesis
          ++ ((Names.txn_type, str Names.nym)
              ∷ (Names.target_nym, str dest_id)
              ∷ (Names.txn_id, str x.random_id)
              ∷ (Names.role, str (x.upper r))
              ∷ [])
            ∷ [];
    })
    print "Genesis transaction added."
