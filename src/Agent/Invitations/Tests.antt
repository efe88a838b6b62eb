-- ===== src/Agent/Invitations/Tests.antt =====
-- The theorems on invitations, with a verifier that takes every signature.
use sovrin.Prelude.{◌≡◌, refl, true, none, [], ◌∷◌, String-Eq}
use sovrin.Python.Dict.{lookup, contains}
use sovrin.Python.Value.{get}
use sovrin.Python.Result.{ok}
use sovrin.Links.{Link, get_link_by_nonce}
use sovrin.Wallet.Items.{Identity}
use sovrin.Wallet.Tests.{counter, two_pending}
use sovrin.Agent.{Crypto, verify_sig}
use sovrin.Agent.Tests.{strict, accept_invite as invite}
use sovrin.Agent.Responses.Tests.{setting}
use sovrin.Agent.Invitations.{Walleted, accept_invite}
use sovrin.Agent.Invitations.Accepted.{accept_invite-first, nym_draft}

abbrev pub trusting : Crypto
trusting = record strict { verify = λ k s t. ok true }

abbrev pub link : Link
link = record {
  name = "Alice";
  local_identifier = "Faber";
  verkey = "Faber";
  trust_anchor = none;
  remote_identifier = none;
  remote_end_point = none;
  nonce = "b1134a";
  invitation_data = none;
  claim_requests = [];
  available_claims = [];
  received_claims = [];
  target_verkey = none;
  link_status = none;
  link_last_synced = none;
  link_last_sync_no = none;
}

abbrev alice : Identity
alice = record {
  identifier = "Alice";
  sponsor = none;
  role = none;
  last_synced = none;
  seq_no = none;
}

abbrev pub fresh : Walleted counter
fresh = record {
  own = record { links = ("Alice", link) ∷ []; sent = []; notices = [] };
  wallet = record two_pending { pending = [] };
  submitted = [];
  claim_defs = [];
  waiting = [];
}

abbrev sponsoring : Walleted counter
sponsoring = record fresh { wallet = record two_pending { sponsored = ("Alice", alice) ∷ [] } }

accept_invite-first_example :
    let q = (counter.sign_request fresh.wallet.core (nym_draft counter fresh "Alice")).0 in
    let (r, b) = accept_invite trusting setting counter invite "alice" "127.0.0.1" fresh in
    (r ≡ ok tt)
    × (b.submitted ≡ q ∷ [])
    × ((li' : Link) × (b.waiting ≡ (q.req_id, (li', "alice")) ∷ []))
    × (b.own.sent ≡ [])
    × (contains "Alice" b.wallet.sponsored ≡ true)
unfolding verify_sig get lookup get_link_by_nonce contains
accept_invite-first_example =
    accept_invite-first trusting setting counter invite "Alice" link fresh refl refl refl "alice"
      "127.0.0.1" refl refl
