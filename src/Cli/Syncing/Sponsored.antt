-- ===== src/Cli/Syncing/Sponsored.antt =====
-- What the inviting agent does with the acceptance that a command line sends.
use sovrin.Prelude.{String, ◌≡◌, refl, true, false, some, [], ◌∷◌, ◌++◌, String-Eq}
use sovrin.Python.Dict.{contains, lookup}
use sovrin.Python.Value.{str, get}
use sovrin.Python.Result.{ok}
use sovrin.Links.{Link, get_link_by_nonce}
use sovrin.Wallet.{Signer}
use sovrin.Agent.{Crypto, verify_sig}
use sovrin.Agent.Invitations.{Setting, Walleted}
use sovrin.Agent.Invitations.Accepted.{nym_draft, accept_invite-first}
use sovrin.Agent.Responses.{handle_endpoint_message}
use sovrin.Cli.{Terminal}
use sovrin.Cli.Syncing.Accepting.{acceptance, signed_acceptance}

module _ {g : Signer} (t : Terminal g) (c : Crypto) (x : Setting) (h : Signer) where
  -- An agent that has a link with the nonce of an invitation, and for which the signature of the
  -- acceptance is right, takes the acceptance that a command line sends on the invitation: if it does
  -- not sponsor the identifier of the link yet and has no pending request, it submits one request,
  -- which asks the ledger for that identifier, and sends nothing before the request is completed.
  pub handle_endpoint_message-accepted :
      (core : g.Core) (li own : Link) (a : Walleted h) (frm ha : String)
      → let message = signed_acceptance t core li in
        verify_sig c (str li.verkey) (str (t.sign_msg core (acceptance t li) li.verkey)) message
          ≡ ok true
        → get_link_by_nonce li.nonce a.own.links ≡ some own
        → x.remote_ha frm ≡ ok ha
        → contains li.verkey a.wallet.sponsored ≡ false
        → a.wallet.pending ≡ []
        → let q = (h.sign_request a.wallet.core (nym_draft h a li.verkey)).0 in
          let (r, b) = handle_endpoint_message c x h message frm a in
          (r ≡ ok tt)
          × (b.submitted ≡ a.submitted ++ q ∷ [])
          × ((li' : Link) × (b.waiting ≡ a.waiting ++ (q.req_id, (li', frm)) ∷ []))
          × (b.own.sent ≡ a.own.sent)
          × (contains li.verkey b.wallet.sponsored ≡ true)
  unfolding handle_endpoint_message get lookup
  handle_endpoint_message-accepted core li own a frm ha right linked remote fresh idle = rw remote (
      accept_invite-first c x h (signed_acceptance t core li) li.verkey own a right refl linked frm
        ha fresh idle)
