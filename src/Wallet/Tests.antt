-- ===== src/Wallet/Tests.antt =====
-- The theorems on the wallet at one with two pending requests and one attribute.
use sovrin.Prelude.{
  ℕ, ◌<◌, ◌≤◌, suc, Bool, false, if◌then◌else◌, ◌==◌, Bool-cases, inl, inr, String, ◌≡◌, none, some,
  [], ◌∷◌, String-Eq, Option-Eq, Pair-Eq, arith,
}
use sovrin.Python.Value.{str, Object}
use sovrin.Txn.Names
use sovrin.Wallet.Items.{Draft, Attribute, AttributeKey, LedgerStore}
use sovrin.Wallet.{Signed, Signer, Wallet, no_key, of_attribute, sign_all, prepare_pending}
use mathlib.Core.List.{reverse}
use sovrin.Wallet.Draining.{drain, drain-ends}
use sovrin.Wallet.Requests.{prepare_pending-in_order, requests_of}

abbrev pub signed_by : ℕ → Draft → Signed × ℕ
signed_by n d = (record { identifier = "Alice"; req_id = suc n; operation = d.operation }, suc n)

pub signed_by-later : (n : ℕ) (d : Draft) → n < (signed_by n d).0.req_id
signed_by-later n d = omega arith

abbrev pub counter : Signer
counter = record {
  Core = ℕ;
  default_id = λ n. some "Alice";
  ids = λ n. "Alice" ∷ [];
  sign_request = signed_by;
  last_req_id = λ n i. n;
  sign_request-later = signed_by-later;
  last_req_id-own = λ n d. omega arith;
  last_req_id-grows = λ n d i. omega arith;
}

abbrev is_bob : Draft → Bool
is_bob d = elim d.identifier [ none ↦ false | some i ↦ i == "Bob" ]

-- Two identifiers, each with the number of its last request: Alice, the default, and Bob.
abbrev sign_for : ℕ × ℕ → Draft → Signed × (ℕ × ℕ)
sign_for (a, b) d =
    if is_bob d
    then (record { identifier = "Bob"; req_id = suc b; operation = d.operation }, (a, suc b))
    else (record { identifier = "Alice"; req_id = suc a; operation = d.operation }, (suc a, b))

abbrev last_number : ℕ × ℕ → String → ℕ
last_number (a, b) i = if i == "Bob" then b else a

sign_for-later :
    (c : ℕ × ℕ) (d : Draft) → last_number c (sign_for c d).0.identifier < (sign_for c d).0.req_id
sign_for-later (a, b) d = elim (Bool-cases (is_bob d)) [
  | inl bob ↦ rw bob (omega arith)
  | inr alice ↦ rw alice (omega arith)
]

last_number-own :
    (c : ℕ × ℕ) (d : Draft)
    → (sign_for c d).0.req_id ≤ last_number (sign_for c d).1 (sign_for c d).0.identifier
last_number-own (a, b) d = elim (Bool-cases (is_bob d)) [
  | inl bob ↦ rw bob (omega arith)
  | inr alice ↦ rw alice (omega arith)
]

last_number-grows :
    (c : ℕ × ℕ) (d : Draft) (i : String) → last_number c i ≤ last_number (sign_for c d).1 i
last_number-grows (a, b) d i = ground arith

abbrev two_signers : Signer
two_signers = record {
  Core = ℕ × ℕ;
  default_id = λ c. some "Alice";
  ids = λ c. "Alice" ∷ "Bob" ∷ [];
  sign_request = sign_for;
  last_req_id = last_number;
  sign_request-later = sign_for-later;
  last_req_id-own = last_number-own;
  last_req_id-grows = last_number-grows;
}

abbrev pub name_key : AttributeKey
name_key = ("name", (some "Alice", none))

abbrev pub name_attribute : Attribute
name_attribute = record {
  name = "name";
  value = str "Alice";
  origin = some "Alice";
  dest = none;
  ledger_store = LedgerStore.raw;
  seq_no = none;
}

abbrev pub draft_of : Object → Draft
draft_of op = record { identifier = some "Alice"; operation = op }

abbrev pub nym_op : Object
nym_op = (Names.txn_type, str Names.nym) ∷ []

abbrev pub attrib_op : Object
attrib_op = (Names.txn_type, str Names.attrib) ∷ []

abbrev pub two_pending : Wallet counter
two_pending = record {
  core = 3;
  attributes = (name_key, name_attribute) ∷ [];
  cred_defs = [];
  sponsored = [];
  known_ids = [];
  last_known_seqs = [];
  issuer_keys = [];
  pending = (draft_of attrib_op, of_attribute name_key) ∷ (draft_of nym_op, no_key) ∷ [];
  prepared = [];
}

-- Bob's request is submitted between those of Alice, and has the lowest number.
abbrev three_pending : Wallet two_signers
three_pending = record {
  core = (7, 3);
  attributes = [];
  cred_defs = [];
  sponsored = [];
  known_ids = [];
  last_known_seqs = [];
  issuer_keys = [];
  pending =
      (draft_of attrib_op, no_key)
      ∷ (record { identifier = some "Bob"; operation = nym_op }, no_key)
      ∷ (draft_of nym_op, no_key)
      ∷ [];
  prepared = [];
}

prepare_pending-in_order_example :
    (requests_of "Alice" (prepare_pending two_signers three_pending).0
      ≡ record { identifier = "Alice"; req_id = 8; operation = nym_op }
        ∷ record { identifier = "Alice"; req_id = 9; operation = attrib_op }
        ∷ [])
    × ((prepare_pending two_signers three_pending).1.pending ≡ [])
prepare_pending-in_order_example = prepare_pending-in_order two_signers three_pending "Alice"

drain-ends_example :
    drain counter 3 two_pending.pending 3 []
    ≡ some (sign_all counter (reverse two_pending.pending) 3 [])
drain-ends_example = drain-ends counter 3 two_pending (omega arith)
