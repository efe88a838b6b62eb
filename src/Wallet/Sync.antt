-- ===== src/Wallet/Sync.antt =====
-- The requests that synchronise the identifiers of a wallet: `getPendingTxnRequests` and
-- `pendSyncRequests` of sovrin/client/wallet/wallet.py.
use sovrin.Prelude.{
  ℕ, String, Option, none, some, List, [], ◌∷◌, any, keep, if◌then◌else◌, nat_eq, String-Eq, ◌==◌,
}
use sovrin.Python.Dict.{lookup}
use sovrin.Python.Value.{num, str, Object}
use sovrin.Txn.Names
use sovrin.Wallet.Items.{Draft}
use sovrin.Wallet.{Signed, Signer, Wallet, no_key, pend_request}

module _ (g : Signer) where
  abbrev since : Option ℕ → Object
  since none = []
  since (some n) = if nat_eq n 0 then [] else (Names.data_key, num n) ∷ []

  abbrev txns_draft : String → Wallet g → Draft
  txns_draft i w = record {
    identifier = some i;
    operation =
        (Names.target_nym, str i)
        ∷ (Names.txn_type, str Names.get_txns)
        ∷ since (lookup i w.last_known_seqs);
  }

  -- the identifiers that are asked about: those given that the wallet has, or all
  abbrev asked_ids : List String → Wallet g → List String
  asked_ids [] w = g.ids w.core
  asked_ids (i ∷ is) w = keep (λ j. any (λ k. k == j) (i ∷ is)) (g.ids w.core)

  -- the loop of `getPendingTxnRequests`: each request is signed
  unfoldable pub sign_txn_requests : List String → Wallet g → List Signed × Wallet g
  sign_txn_requests [] w = ([], w)
  sign_txn_requests (i ∷ is) w =
      let (r, c) = g.sign_request w.core (txns_draft i w) in
      let (rs, w') = sign_txn_requests is (record w { core = c }) in (r ∷ rs, w')

  unfoldable pub get_pending_txn_requests : List String → Wallet g → List Signed × Wallet g
  unfolding sign_txn_requests
  get_pending_txn_requests is w = sign_txn_requests (asked_ids is w) w

  abbrev draft_again : Signed → Draft
  draft_again r = record { identifier = some r.identifier; operation = r.operation }

  unfoldable pub pend_all : List Signed → Wallet g → Wallet g
  unfolding pend_request
  pend_all [] w = w
  pend_all (r ∷ rs) w = pend_all rs (pend_request g (draft_again r) no_key w)

  -- `pendSyncRequests`; preparing signs the requests again
  unfoldable pub pend_sync_requests : Wallet g → Wallet g
  unfolding get_pending_txn_requests pend_all
  pend_sync_requests w = let (rs, w') = get_pending_txn_requests [] w in pend_all rs w'
