-- ===== src/Node/Execution/Kept.antt =====
-- Which keys of a transaction its ledger entry and its copy for the graph keep.
use sovrin.Prelude.{
  String, ◌≡◌, refl, true, false, [], ◌∷◌, any, arith, String-Eq, ◌==◌, ◌∙◌, Option-cases, inl, inr,
}
use sovrin.Python.Dict.{lookup, insert, update, contains, lookup-insert, lookup-erase}
use sovrin.Python.Value.{Value, str, Object}
use sovrin.Python.Result.{ok, ◌>>=◌}
use sovrin.Txn.{txn_ordered_fields}
use sovrin.Txn.Names
use sovrin.Signing.{hash_key, as_string}
use sovrin.Node.Env.{Plenum, Ledger, merkle_keys}
use sovrin.Node.Execution.{ledger_entry, graph_txn}

hashed-keeps :
    (sha256 : String → String) (k j : String) (v : Value) (op e : Object)
    → (as_string v >>= λ s. ok (insert k (str (sha256 s)) op)) ≡ ok e
    → String-Eq.beq k j ≡ false
    → lookup j e ≡ lookup j op
hashed-keeps sha256 k j (str s) op e h other =
    let made : insert k (str (sha256 s)) op ≡ e = cc in rw (← made) (rw (lookup-insert, other))
hashed-keeps sha256 k j v op e h other = ground arith

hash_key-keeps :
    (sha256 : String → String) (k j : String) (op e : Object)
    → hash_key sha256 k op ≡ ok e
    → String-Eq.beq k j ≡ false
    → lookup j e ≡ lookup j op
unfolding hash_key
hash_key-keeps sha256 k j op e h other = elim (Option-cases (lookup k op)) [
  | inl missing ↦ absurd (ground arith)
  | inr (v, there) ↦ hashed-keeps sha256 k j v op e (rw there at h) other
]

-- A key under which the code writes nothing later, and which the ledger's serializer keeps.
pub record IsKept (k : String) : Type 0 where
  pub not_raw : String-Eq.beq Names.raw k ≡ false
  pub not_enc : String-Eq.beq Names.enc k ≡ false
  pub not_root : String-Eq.beq Names.root_hash k ≡ false
  pub not_path : String-Eq.beq Names.audit_path k ≡ false
  pub not_number : String-Eq.beq Names.seq_no k ≡ false
  pub not_merkle : any (◌==◌ k) merkle_keys ≡ false
  pub is_field : any (◌==◌ k) txn_ordered_fields ≡ true

pub ledger_entry-keeps :
    (p : Plenum) (result entry : Object) (k : String)
    → IsKept k
    → ledger_entry p result ≡ ok entry
    → lookup k entry ≡ lookup k result
unfolding ledger_entry
ledger_entry-keeps p result entry k kept h = ground (
  arith,
  hash_key-keeps p.sha256 Names.raw k result entry,
  hash_key-keeps p.sha256 Names.enc k result entry,
)

lookup-update_absent :
    (k : String) (d e : Object) → contains k e ≡ false → lookup k (update d e) ≡ lookup k d
unfolding update contains
lookup-update_absent k d [] h = refl
lookup-update_absent k d ((j, v) ∷ e) h =
    lookup-update_absent k (insert j v d) e (ground arith) ∙ ground (arith, lookup-insert j k v d)

-- The merkle information and the number that are added, and what the graph's copy leaves out, are
-- under other keys.
pub graph_txn-keeps :
    (k : String) (x : Value) (d : Object)
    → IsKept k
    → lookup k (graph_txn (insert Names.seq_no x d)) ≡ lookup k d
graph_txn-keeps k x d kept =
    rw (lookup-erase, kept.not_path)
      (rw (lookup-erase, kept.not_root) (rw (lookup-insert, kept.not_number)))

pub with_info-keeps :
    (l : Ledger) (entry : Object) (log : l.Log) (k : String)
    → IsKept k
    → lookup k (update entry (l.append entry log).0) ≡ lookup k entry
with_info-keeps l entry log k kept =
    lookup-update_absent k entry (l.append entry log).0
      (l.merkle_keys-append entry log k kept.not_merkle)

pub txn_type-IsKept : IsKept Names.txn_type
txn_type-IsKept = ground arith

pub target_nym-IsKept : IsKept Names.target_nym
target_nym-IsKept = ground arith

pub role-IsKept : IsKept Names.role
role-IsKept = ground arith

pub txn_id-IsKept : IsKept Names.txn_id
txn_id-IsKept = ground arith
