-- ===== src/Agent/Invitations.antt =====
-- The invitations of sovrin/agent/agent.py: an invited agent accepts, the inviting one sponsors its
-- identifier and sends the list of claims, and gives the attributes of a claim on request; and the
-- dispatch of messages.
pub mod Accepted
pub mod Tests
use sovrin.Prelude.{
  ℕ, String, Bool, true, false, not, Option, none, some, List, [], ◌∷◌, ◌++◌, map, if◌then◌else◌,
  String-Eq, ◌==◌, nat_eq,
}
use sovrin.Python.Dict.{Dict, lookup, insert}
use sovrin.Python.Value.{
  Value, null, num, str, obj, arr, Object, Items, nil, cons, get, of_dict, of_list, truthy, is_str,
}
use sovrin.Python.Result.{
  Exc, Result, ok, err, key_error, type_error, attribute_error, runtime_error, not_implemented,
  assertion, index_error, or_raise,
}
use sovrin.Python.Exec.{Exec, pure, raise, lift, gets, asks, modify, catching, ◌>>=◌, ◌>>◌}
use sovrin.Txn.Names
use sovrin.Signing.{as_object, as_string}
use sovrin.Links.{
  Link, ClaimDefKey, AvailableClaim, update_available_claims, add_link_invitation,
  get_link_invitation_by_target,
}
use sovrin.Wallet.Items.{Draft, Identity, CredDef, new_identity, opt_str}
use sovrin.Wallet.{
  Signed, Signer, Wallet, add_sponsored_identity, prepare_pending, first_of_list,
  get_cred_def_by_seq_no, request_identity,
}
use sovrin.Agent.{
  Crypto, State, item, identifier_of, notify, verify_and_get_link, is_verified,
  sign_and_send_to_caller, create_avail_claim_list_msg, create_claims_attrs_msg, handle_claim_attrs,
  handle_req_claim_response,
}

-- What a subclass or the network gives: the list of claims, the attributes of a link, the address of
-- a remote, the actions of event listeners, and the texts that are put together.
pub record Setting : Type 0 where
  pub available_claims : Result Value
  pub attributes_of : (nonce : String) → Option Object
  pub remote_ha : String → Result String
  pub fire : String → Object → Result (Unit {0})
  pub received : Value → String
  pub response_from : String → String
  pub error_text : (about msg : Value) → String
  pub claims_text : List String → String
  pub now : String

-- An agent with its wallet: the links, messages and notices, the wallet's queue, the requests given
-- to the client, the definitions of claims, and the links and clients that wait for a request.
pub record Walleted (g : Signer) : Type 0 where
  pub own : State
  pub wallet : Wallet g
  pub submitted : List Signed
  pub claim_defs : Dict ClaimDefKey Value
  pub waiting : List (ℕ × (Link × String))

module _ (c : Crypto) (x : Setting) (g : Signer) where
  abbrev pub on_own {ℓ} :
      {A : Type ℓ} → (State → Result A × State) → Walleted g → Result A × Walleted g
  on_own m a = let (r, s) = m a.own in (r, record a { own = s })

  abbrev pub on_wallet {ℓ} :
      {A : Type ℓ} → (Wallet g → Result A × Wallet g) → Walleted g → Result A × Walleted g
  on_wallet m a = let (r, w) = m a.wallet in (r, record a { wallet = w })

  -- `notifyToRemoteCaller`
  unfoldable pub notify_to_remote_caller :
      (event text : String) → (identifier : Value) → (frm : String) → Exec State Unit
  unfolding sign_and_send_to_caller
  notify_to_remote_caller event text identifier frm =
      sign_and_send_to_caller c
        ((Names.txn_type, str "event") ∷ ("eventName", str event) ∷ (Names.data_key, str text) ∷ [])
        identifier frm

  -- `sendClaimList` of `_acceptInvite`
  unfoldable pub send_claim_list : Link → (frm : String) → Exec State Unit
  unfolding sign_and_send_to_caller create_avail_claim_list_msg
  send_claim_list li frm = do
    claims ← lift x.available_claims
    sign_and_send_to_caller c (create_avail_claim_list_msg claims false) (str li.local_identifier)
        frm

  abbrev already_added : Exc → Exec (Wallet g) Bool
  already_added runtime_error = pure true
  already_added e = raise e

  -- whether the identifier was sponsored before
  unfoldable pub sponsor : String → Exec (Wallet g) Bool
  unfolding add_sponsored_identity new_identity
  sponsor identifier =
      catching
        (do
          idy ← lift (new_identity identifier none none)
          add_sponsored_identity g idy
          pure false)
        already_added

  abbrev prepare_first : Exec (Wallet g) Signed
  prepare_first w = let (rs, w') = prepare_pending g w in (first_of_list g rs, w')

  -- `_sendToSovrinAndDo`: the claims are sent when the request is completed
  abbrev submit_then : Signed → Link → (frm : String) → Exec (Walleted g) Unit
  submit_then r li frm = modify (λ a. record a {
    submitted = a.submitted ++ r ∷ [];
    waiting = a.waiting ++ (r.req_id, (li, frm)) ∷ [];
  })

  abbrev accept_as : Link → (frm : String) → (already : Bool) → Exec (Walleted g) Unit
  accept_as li frm true = on_own (do
    send_claim_list li frm
    notify_to_remote_caller "NOTIFY" "    Already accepted" (str li.verkey) frm)
  accept_as li frm false = do r ← on_wallet prepare_first; submit_then r li frm

  abbrev accept_on : Option Link → Object → (frm : String) → Exec (Walleted g) Unit
  accept_on none body frm = pure tt
  accept_on (some li) body frm = do
    identifier ← lift (identifier_of (get Names.identifier body))
    already ← on_wallet (sponsor identifier)
    accept_as li frm already

  -- `_acceptInvite`
  unfoldable pub accept_invite : Object → (frm ha : String) → Exec (Walleted g) Unit
  unfolding verify_and_get_link sponsor prepare_pending send_claim_list notify_to_remote_caller
  accept_invite body frm ha = do
    li ← on_own (verify_and_get_link c body frm ha)
    accept_on li body frm

  -- The client tells that a request is completed: those that wait for it get their list of claims.
  unfoldable pub request_completed : ℕ → List (ℕ × (Link × String)) → Exec State Unit
  unfolding send_claim_list
  request_completed n [] = pure tt
  request_completed n ((m, (li, frm)) ∷ ws) = do
    if nat_eq m n then send_claim_list li frm else pure tt
    request_completed n ws

  abbrev picked : Object → List String → Object → Object
  picked attributes [] res = res
  picked attributes (k ∷ ks) res = picked attributes ks (insert k (get k attributes) res)

  -- `_getClaimsAttrsFor`
  unfoldable pub get_claims_attrs_for : (nonce : String) → List String → Object
  unfolding insert
  get_claims_attrs_for nonce names = elim (x.attributes_of nonce) [
    | none ↦ []
    | some attributes ↦ picked attributes names []
  ]

  -- `getCredDef(seqNo=v)`, whose assertion wants a number that is not 0
  abbrev def_numbered : Value → Wallet g → Result CredDef
  def_numbered v w =
      if truthy v
      then (elim v [
        | num n ↦ or_raise attribute_error (get_cred_def_by_seq_no g n w)
        | _ ↦ err attribute_error
      ])
      else err assertion

  abbrev claim_details : (number : Value) → CredDef → Object → Object
  claim_details number d attributes =
      (Names.name, str d.name)
      ∷ (Names.version, str d.version)
      ∷ ("attributes", obj (of_dict attributes))
      ∷ ("claimDefSeqNo", number)
      ∷ (Names.identifier, opt_str d.origin)
      ∷ []

  abbrev return_on : Option Link → Object → (frm : String) → Exec (Walleted g) Unit
  return_on none body frm = raise not_implemented
  return_on (some li) body frm = do
    number ← lift (item "claimDefSeqNo" body)
    d ← asks (λ a. def_numbered number a.wallet)
    on_own (
        sign_and_send_to_caller c
          (create_claims_attrs_msg
            (obj (of_dict (claim_details number d (get_claims_attrs_for li.nonce d.attr_names)))))
          (str li.local_identifier) frm)

  -- `_returnClaimAttrs`
  unfoldable pub return_claim_attrs : Object → (frm ha : String) → Exec (Walleted g) Unit
  unfolding verify_and_get_link get_claims_attrs_for sign_and_send_to_caller
  return_claim_attrs body frm ha = do
    li ← on_own (verify_and_get_link c body frm ha)
    return_on li body frm

  -- `_eventHandler`; a notice is a text
  unfoldable pub event_handler : Object → Exec State Unit
  unfolding is_verified
  event_handler body = do
    verified ← is_verified c body
    if verified
        then (do
          event ← lift (item "eventName" body)
          about ← lift (item Names.data_key body)
          if is_str event "NOTIFY" then (do text ← lift (as_string about); notify text) else (do
            name ← lift (as_string event)
            args ← lift (as_object about)
            lift (x.fire name args)))
        else pure tt

  -- `_handleError`
  unfoldable pub handle_error : Object → Exec State Unit
  handle_error body = do
    about ← lift (item Names.data_key body)
    msg ← lift (item "REQ_MSG" body)
    notify (x.error_text about msg)
