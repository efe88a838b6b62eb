-- ===== src/Wallet/IssuerKeys.antt =====
-- The issuer keys of a wallet (`_issuerPks`): the class IssuerPubKey of
-- sovrin/client/wallet/cred_def.py and its uses in sovrin/client/wallet/wallet.py. The integers of
-- a key are numbers, and `to_str` is `str` on them; a key that is not initialised has none.
use sovrin.Prelude.{
  ℕ, String, Bool, true, false, Option, none, some, List, [], ◌∷◌, all, if◌then◌else◌, nat_eq,
  String-Eq, ℕ-Eq, Option-Eq, Pair-Eq, ◌&&◌, map,
}
use sovrin.Python.Dict.{Dict, lookup}
use sovrin.Python.Value.{Value, num, str, obj, Object, get, of_dict, to_dict, is_str}
use sovrin.Python.Result.{
  Result, ok, err, assertion, attribute_error, or_raise, raise_unless, ◌>>=◌, ◌>>◌,
}
use sovrin.Txn.Names
use sovrin.Wallet.Items.{Draft, CredDef, opt_str, has_number, is_given}

pub record Integers : Type 0 where
  pub n : ℕ
  pub r : Dict String ℕ
  pub s : ℕ
  pub z : ℕ

pub record IssuerPubKey : Type 0 where
  pub claim_def_seq_no : ℕ
  pub origin : Option String
  pub integers : Option Integers
  pub seq_no : Option ℕ

abbrev pub IssuerKeyId : Type 0
IssuerKeyId = Option String × ℕ

abbrev pub IssuerKeys : Type 0
IssuerKeys = Dict IssuerKeyId IssuerPubKey

-- `IssuerPubKey.key`
abbrev pub issuer_key_id : IssuerPubKey → IssuerKeyId
issuer_key_id k = (k.origin, k.claim_def_seq_no)

-- `initPubKey`
unfoldable pub init_pub_key : Option ℕ → Integers → IssuerPubKey → IssuerPubKey
init_pub_key seq_no ints k = record k { integers = some ints; seq_no = seq_no }

-- `getRequest`
unfoldable pub issuer_key_get_request : IssuerPubKey → Option String → Option Draft
issuer_key_get_request k author =
    if has_number k.seq_no
    then none
    else some (record {
      identifier = author;
      operation =
          (Names.txn_type, str Names.get_issuer_key)
          ∷ (Names.reference, num k.claim_def_seq_no)
          ∷ (Names.origin, opt_str k.origin)
          ∷ [];
    })

-- `getIssuerPublicKey`, `getIssuerPublicKeyForClaimDef`, `getAvailableClaimList`
unfoldable pub get_issuer_public_key : IssuerKeyId → IssuerKeys → Option IssuerPubKey
get_issuer_public_key k ks = lookup k ks

unfoldable pub get_issuer_public_key_for_claim_def : Option ℕ → IssuerKeys → Option IssuerPubKey
get_issuer_public_key_for_claim_def none [] = none
get_issuer_public_key_for_claim_def none (e ∷ ks) = get_issuer_public_key_for_claim_def none ks
get_issuer_public_key_for_claim_def (some n) [] = none
get_issuer_public_key_for_claim_def (some n) (((o, m), k) ∷ ks) =
    if nat_eq m n then some k else get_issuer_public_key_for_claim_def (some n) ks

unfoldable pub get_available_claim_list :
    List CredDef → IssuerKeys → List (CredDef × Option IssuerPubKey)
unfolding get_issuer_public_key_for_claim_def
get_available_claim_list cs ks =
    map (λ (c : CredDef). (c, get_issuer_public_key_for_claim_def c.seq_no ks)) cs

module _ (to_str : ℕ → String) where
  abbrev texts : Dict String ℕ → Object
  texts [] = []
  texts ((k, v) ∷ d) = (k, str (to_str v)) ∷ texts d

  -- `IssuerPubKey.request`
  unfoldable pub issuer_key_request : IssuerPubKey → Result (Option Draft)
  issuer_key_request k = if has_number k.seq_no then ok none else (do
    raise_unless (is_given k.origin) assertion
    ints ← or_raise attribute_error k.integers
    ok (
        some (record {
          identifier = k.origin;
          operation =
              (Names.txn_type, str Names.issuer_key)
              ∷ (Names.reference, num k.claim_def_seq_no)
              ∷ (
                Names.data_key,
                obj (
                    of_dict (
                      ("N", str (to_str ints.n))
                      ∷ ("R", obj (of_dict (texts ints.r)))
                      ∷ ("S", str (to_str ints.s))
                      ∷ ("Z", str (to_str ints.z))
                      ∷ [])),
              )
              ∷ [];
        })))

  -- every integer of R is that of the data; data without an R raise, if R has any
  abbrev r_matches : Dict String ℕ → Value → Result Bool
  r_matches [] v = ok true
  r_matches (e ∷ r) (obj fs) =
      ok (all (λ (x : String × ℕ). is_str (get x.0 (to_dict fs)) (to_str x.1)) (e ∷ r))
  r_matches (e ∷ r) v = err attribute_error

  abbrev key_matches : Object → Integers → Result Bool
  key_matches d ints =
      if is_str (get "N" d) (to_str ints.n)
        && (is_str (get "S" d) (to_str ints.s) && is_str (get "Z" d) (to_str ints.z))
      then r_matches ints.r (get "R" d)
      else ok false

  -- `_getMatchingIssuerKey`: the first key with the integers of the data
  unfoldable pub get_matching_issuer_key : Object → IssuerKeys → Result (Option IssuerKeyId)
  get_matching_issuer_key d [] = ok none
  get_matching_issuer_key d ((i, k) ∷ ks) = do
    ints ← or_raise attribute_error k.integers
    same ← key_matches d ints
    if same then ok (some i) else get_matching_issuer_key d ks
