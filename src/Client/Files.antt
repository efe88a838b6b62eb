-- ===== src/Client/Files.antt =====
-- The stores of attributes and of credential definitions in a directory of files:
-- sovrin/persistence/attribute_store_file.py and sovrin/persistence/credential_def_store_file.py.
-- The ledger package's DirectoryStore, JSON and base64 are parameters.
pub mod Kept
mod Tests
use sovrin.Prelude.{
  ℕ, String, Bool, Option, none, some, List, [], ◌∷◌, if◌then◌else◌, ◌≡◌, true, false, cat,
  String-Eq, ◌==◌,
}
use sovrin.Python.Dict.{insert}
use sovrin.Python.Value.{Value, num, str, obj, Object, of_dict}
use sovrin.Python.Result.{Result, ok, ◌>>=◌, ◌>>◌}
use sovrin.Txn.Names
use sovrin.Wallet.Items.{has_string, opt_str}

-- A directory with a file for each key. A file holds a text, here the JSON text of an object, which
-- is true, being not empty.
pub record Directory : Type 1 where
  pub Store : Type 0
  pub Text : Type 0
  pub put : (key : String) → Text → Store → Store
  pub get : (key : String) → Store → Option Text
  pub get-put : (k : String) (t : Text) (s : Store) → get k (put k t s) ≡ some t
  pub get-put_other :
      (k j : String) (t : Text) (s : Store) → (k == j) ≡ false → get j (put k t s) ≡ get j s
  pub dumps : Object → Text
  pub loads : Text → Result Object
  pub is_true : Text → Bool
  pub loads-dumps : (d : Object) → loads (dumps d) ≡ ok d
  pub is_true-dumps : (d : Object) → is_true (dumps d) ≡ true
  -- `base64.urlsafe_b64encode(key.encode()).decode()`
  pub to_base64 : String → String

-- `dest or ""`
abbrev or_text : Option String → String
or_text none = ""
or_text (some s) = s

module _ (x : Directory) where
  -- `attrKey`
  unfoldable pub attr_key : (name : String) → (dest : Option String) → String
  attr_key name dest = x.to_base64 (cat (name ∷ "_" ∷ or_text dest ∷ []))

  abbrev named : (name : String) → (dest : Option String) → Object → Object
  named name dest attr =
      let d = insert Names.name (str name) attr in
      if has_string dest then insert Names.target_nym (opt_str dest) d else d

  -- `constructAttrData`
  unfoldable pub construct_attr_data :
      (file_data : x.Text) → (name : String) → (dest : Option String) → Result Object
  unfolding insert
  construct_attr_data file_data name dest = do attr ← x.loads file_data; ok (named name dest attr)

  abbrev given_entry : String → Option String → Object → Object
  given_entry k v d = if has_string v then insert k (opt_str v) d else d

  -- the value that `addAttribute` stores
  unfoldable pub attribute_value :
      Value → (origin : String) → (enc_key enc_type : Option String) → (hashed : Bool) → Object
  unfolding insert
  attribute_value val origin enc_key enc_type hashed =
      let data_key_name =
        if hashed then Names.hash else if has_string enc_key then Names.enc else Names.raw in
      given_entry "encType" enc_type (
        given_entry "secretKey" enc_key
          (insert Names.origin (str origin) ((data_key_name, val) ∷ [])))

  -- `AttributeStoreFile.addAttribute`
  unfoldable pub add_attribute :
      (name : String)
      → Value
      → (origin : String) → (dest enc_key enc_type : Option String) → (hashed : Bool) → x.Store
      → x.Store
  unfolding attr_key attribute_value
  add_attribute name val origin dest enc_key enc_type hashed =
      x.put (attr_key name dest) (x.dumps (attribute_value val origin enc_key enc_type hashed))

  abbrev read_attribute : String → Option String → Option x.Text → Result (Option Object)
  read_attribute name dest none = ok none
  read_attribute name dest (some text) =
      if x.is_true text then (do d ← construct_attr_data text name dest; ok (some d)) else ok none

  -- `AttributeStoreFile.getAttribute`
  unfoldable pub get_attribute :
      (name : String) → (dest : Option String) → x.Store → Result (Option Object)
  unfolding attr_key construct_attr_data
  get_attribute name dest s = read_attribute name dest (x.get (attr_key name dest) s)

  -- `CredDefStoreFile.key`
  unfoldable pub cred_def_file_key : (name version dest : String) → String
  cred_def_file_key name version dest = x.to_base64 (cat (name ∷ "_" ∷ version ∷ "_" ∷ dest ∷ []))

  -- `CredDefStoreFile.addCredDef`
  unfoldable pub add_cred_def :
      (name version dest type ip : String) → (port : ℕ) → (keys : Object) → x.Store → x.Store
  unfolding cred_def_file_key
  add_cred_def name version dest type ip port keys = x.put (cred_def_file_key name version dest) (
      x.dumps (
        (Names.typ, str type)
        ∷ (Names.ip, str ip)
        ∷ (Names.port, num port)
        ∷ (Names.keys, obj (of_dict keys))
        ∷ []))

  abbrev read_cred_def : (name version dest : String) → Option x.Text → Result (Option Object)
  read_cred_def name version dest none = ok none
  read_cred_def name version dest (some text) =
      if x.is_true text
      then (do
        d ← x.loads text
        ok (
            some (
              insert Names.target_nym (str dest)
                (insert Names.version (str version) (insert Names.name (str name) d)))))
      else ok none

  -- `CredDefStoreFile.getCredDef`, with a destination
  unfoldable pub get_cred_def : (name version dest : String) → x.Store → Result (Option Object)
  unfolding cred_def_file_key insert
  get_cred_def name version dest s =
      read_cred_def name version dest (x.get (cred_def_file_key name version dest) s)
