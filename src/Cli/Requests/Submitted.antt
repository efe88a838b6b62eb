-- ===== src/Cli/Requests/Submitted.antt =====
-- Which requests the commands that write to the ledger submit.
use sovrin.Prelude.{
  ◌≡◌, refl, String, true, Option, some, List, [], ◌∷◌, ◌++◌, String-Eq, Option-Eq,
}
use mathlib.Core.List.{append-nil}
use sovrin.Python.Dict.{contains, update}
use sovrin.Python.Value.{Value, str}
use sovrin.Python.Result.{Result, ok, err, value_error}
use sovrin.Txn.Names
use sovrin.Wallet.Items.{Draft, is_sponsoring_role, new_identity}
use sovrin.Wallet.{Signer, add_sponsored_identity, prepare_pending, sign_all, sort_by_req_id}
use sovrin.Cli.{Terminal, Shell, submit_reqs}
use sovrin.Cli.Requests.{submit_one, add_nym}

module _ {g : Signer} (x : Terminal g) where
  -- the request of a nym without a role, in the name of the keyring's own identifier
  abbrev pub plain_nym : g.Core → String → Draft
  plain_nym c nym = record {
    identifier = g.default_id c;
    operation = (Names.target_nym, str nym) ∷ (Names.txn_type, str Names.nym) ∷ [];
  }

  -- The command that adds a nym which the keyring sponsors already, with a valid role or none, and with
  -- no request pending, raises a ValueError: it submits nothing, waits for nothing and prints nothing.
  pub add_nym-again :
      (nym : String) (role other : Option String) (s : Shell g)
      → is_sponsoring_role role ≡ true
      → contains nym s.wallet.sponsored ≡ true
      → s.wallet.pending ≡ []
      → let (r, s') = add_nym x nym role other s in
        (r ≡ err value_error)
        × (s'.submitted ≡ s.submitted)
        × (s'.waiting ≡ s.waiting)
        × (s'.printed ≡ s.printed)
        × (s'.wallet.sponsored ≡ s.wallet.sponsored)
  unfolding add_nym submit_one new_identity add_sponsored_identity prepare_pending sign_all
      sort_by_req_id update submit_reqs
  add_nym-again nym role other s valid known idle =
      rw valid (rw (valid, known, idle) (refl, append-nil s.submitted, refl, refl, refl))

  -- the request of an attribute of another nym, with its data in plain
  abbrev pub plain_attribute : (own nym : String) → Value → Draft
  plain_attribute own nym content = record {
    identifier = some own;
    operation =
        (Names.txn_type, str Names.attrib)
        ∷ (Names.target_nym, str nym)
        ∷ (Names.raw, content)
        ∷ [];
  }

  abbrev pub SubmitsPlain :
      (own nym : String) → Value → Shell g → Result (Unit {0}) × Shell g → Type 0
  SubmitsPlain own nym content s (r, s') =
      (r ≡ ok tt)
      × (s'.submitted
          ≡ s.submitted ++ (g.sign_request s.wallet.core (plain_attribute own nym content)).0 ∷ [])
