-- ===== src/Agent/Invitations/Accepted.antt =====
-- What an agent does when an invitation is accepted, the first time and again.
use sovrin.Prelude.{String, ◌≡◌, refl, true, false, some, [], ◌∷◌, ◌++◌, eq_refl, String-Eq}
use sovrin.Python.Dict.{contains, insert, update, contains-insert}
use sovrin.Python.Value.{Value, str, obj, Object, get, of_dict}
use sovrin.Python.Result.{ok}
use sovrin.Txn.Names
use sovrin.Links.{Link}
use sovrin.Wallet.Items.{Draft, new_identity, identity_ledger_request}
use sovrin.Wallet.{
  Signer, add_sponsored_identity, prepare_pending, pend_request, sign_all, insert_by_req_id,
  sort_by_req_id,
}
use sovrin.Agent.{Crypto, signature, verify_sig, verify_and_get_link, link_of}
use sovrin.Agent.Invitations.{Setting, Walleted, accept_invite, sponsor}

-- the request that makes the agent the sponsor of the identifier
abbrev pub nym_draft : (g : Signer) → Walleted g → String → Draft
nym_draft g a i = record {
  identifier = g.default_id a.wallet.core;
  operation = (Names.target_nym, str i) ∷ (Names.txn_type, str Names.nym) ∷ [];
}

-- a message with the identifier and its signature
abbrev pub signed_as : Crypto → (identifier : Value) → Object → Object
signed_as c identifier m =
    let named = insert Names.identifier identifier m in
    insert signature (str (c.sign_msg named identifier)) named

abbrev pub claim_list_of : Value → Object
claim_list_of v =
    (Names.txn_type, str "AVAIL_CLAIM_LIST")
    ∷ (Names.data_key, obj (of_dict (("availableClaimsList", v) ∷ [])))
    ∷ []

abbrev pub already_accepted : Object
already_accepted =
    (Names.txn_type, str "event")
    ∷ ("eventName", str "NOTIFY")
    ∷ (Names.data_key, str "    Already accepted")
    ∷ []

module _ (c : Crypto) (x : Setting) (g : Signer) (body : Object) (i : String) (li : Link)
    (a : Walleted g)
    (whole : verify_sig c (get Names.identifier body) (get signature body) body ≡ ok true)
    (from : get Names.identifier body ≡ str i)
    (linked : link_of c (get Names.nonce body) a.own.links ≡ some li) where
  -- An agent without pending requests that does not sponsor the identifier yet submits one request,
  -- which asks the ledger for the nym, and sends nothing: the sender waits for the list of claims
  -- under the number of the request.
  pub accept_invite-first :
      (frm ha : String)
      → contains i a.wallet.sponsored ≡ false
      → a.wallet.pending ≡ []
      → let q = (g.sign_request a.wallet.core (nym_draft g a i)).0 in
        let (r, b) = accept_invite c x g body frm ha a in
        (r ≡ ok tt)
        × (b.submitted ≡ a.submitted ++ q ∷ [])
        × ((li' : Link) × (b.waiting ≡ a.waiting ++ (q.req_id, (li', frm)) ∷ []))
        × (b.own.sent ≡ a.own.sent)
        × (contains i b.wallet.sponsored ≡ true)
  unfolding accept_invite verify_and_get_link sponsor add_sponsored_identity new_identity
      identity_ledger_request pend_request prepare_pending sign_all insert insert_by_req_id
      sort_by_req_id update
  accept_invite-first frm ha fresh idle =
      rw (whole, linked)
        (rw from (
          rw (fresh, idle)
            (refl, refl, (_, refl), refl, rw (contains-insert i i) (rw (eq_refl i)))))
