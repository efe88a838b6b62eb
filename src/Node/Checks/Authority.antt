-- ===== src/Node/Checks/Authority.antt =====
-- Who may add what: `checkRequestAuthorized`.
use sovrin.Prelude.{
  String, ◌≡◌, ◌↔◌, ◌⊎◌, true, false, some, arith, String-Eq, eq_iff, Bool-cases, inl, inr, str_eq,
}
use sovrin.Python.Dict.{lookup}
use sovrin.Python.Value.{Value, str, truthy, get, or_else, is_str_iff}
use sovrin.Python.Result.{ok}
use sovrin.Txn.{is_valid_role}
use sovrin.Txn.Names
use sovrin.Signing.{Request}
use sovrin.Graph.Db.{OrientDb}
use sovrin.Graph.Nyms.{get_role, get_sponsor_for}
use sovrin.Node.Env.{Plenum}
use sovrin.Node.Checks.{authorize_nym, check_request_authorized}

-- A steward adds nyms of every role, a sponsor adds users, and nobody else adds a nym.
abbrev pub MayAdd : (adder role : Value) → Type 0
MayAdd adder role =
    ((adder ≡ str Names.steward) × (is_valid_role role ≡ true))
    ⊎ ((adder ≡ str Names.sponsor) × (role ≡ str Names.user))

module _ (adder : Value) where
  by_steward : (authorize_nym (str Names.steward) adder ≡ ok tt) ↔ MayAdd adder (str Names.steward)
  unfolding authorize_nym
  by_steward = ground (
    arith,
    is_str_iff adder Names.steward,
    is_str_iff adder Names.sponsor,
    eq_iff Names.steward Names.user,
  )

  by_sponsor : (authorize_nym (str Names.sponsor) adder ≡ ok tt) ↔ MayAdd adder (str Names.sponsor)
  unfolding authorize_nym
  by_sponsor = ground (
    arith,
    is_str_iff adder Names.steward,
    is_str_iff adder Names.sponsor,
    eq_iff Names.sponsor Names.user,
  )

  by_user : (authorize_nym (str Names.user) adder ≡ ok tt) ↔ MayAdd adder (str Names.user)
  unfolding authorize_nym
  by_user = ground (arith, is_str_iff adder Names.steward, is_str_iff adder Names.sponsor)

  by_other :
      (r : String)
      → str_eq r Names.steward ≡ false
      → str_eq r Names.sponsor ≡ false
      → str_eq r Names.user ≡ false
      → (authorize_nym (str r) adder ≡ ok tt) ↔ MayAdd adder (str r)
  unfolding authorize_nym
  by_other r a b c = ground (arith, eq_iff r Names.user)

  authorize_nym-ok : (role : Value) → (authorize_nym role adder ≡ ok tt) ↔ MayAdd adder role
  authorize_nym-ok (str r) = elim (Bool-cases (str_eq r Names.steward)) [
    | inl e ↦ rw ((eq_iff r Names.steward).0 e) by_steward
    | inr a ↦ elim (Bool-cases (str_eq r Names.sponsor)) [
      | inl e ↦ rw ((eq_iff r Names.sponsor).0 e) by_sponsor
      | inr b ↦ elim (Bool-cases (str_eq r Names.user)) [
        | inl e ↦ rw ((eq_iff r Names.user).0 e) by_user
        | inr c ↦ by_other r a b c
      ]
    ]
  ]
  authorize_nym-ok v = unfold authorize_nym in ground arith

module _ (p : Plenum) (db : OrientDb) (r : Request) (s : db.Store) (adder : Value)
    (known : get_role db r.identifier s ≡ ok adder) where
  abbrev role : Value
  role = or_else (get Names.role r.operation) (str Names.user)

  -- A NYM request of a known sender is authorized exactly when the sender's role may add a nym of
  -- the requested role, or of the role USER if none is requested.
  pub check_request_authorized-nym :
      lookup Names.txn_type r.operation ≡ some (str Names.nym)
      → (check_request_authorized p db r s ≡ ok tt) ↔ MayAdd adder role
  unfolding check_request_authorized
  check_request_authorized-nym type = rw (type, known) (authorize_nym-ok adder role)

  -- The same for an attribute: it is authorized exactly when it names no target, or the sender
  -- itself, or a nym whose sponsor is the sender.
  pub check_request_authorized-attrib :
      (o : String)
      → r.identifier ≡ str o
      → lookup Names.txn_type r.operation ≡ some (str Names.attrib)
      → let target = get Names.target_nym r.operation in
        (check_request_authorized p db r s ≡ ok tt)
        ↔ ((truthy target ≡ false) ⊎ ((target ≡ str o) ⊎ (get_sponsor_for db target s ≡ str o)))
  unfolding check_request_authorized
  check_request_authorized-attrib o from type =
      let target = get Names.target_nym r.operation in
      rw (type, known)
        (rw from (ground (arith, is_str_iff target o, is_str_iff (get_sponsor_for db target s) o)))
