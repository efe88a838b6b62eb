-- ===== src/Client/Files/Kept.antt =====
-- What the stores in files give back.
use sovrin.Prelude.{
  ℕ, String, Bool, true, false, Option, some, [], ◌==◌, ◌∙◌, ap, sym, eq_refl, ◌∷◌, if◌then◌else◌,
  ◌≡◌, refl, cat, String-Eq, inl, inr, Bool-cases,
}
use text.Mathlib.TextLemmas.{append_assoc, append-nil}
use sovrin.Python.Dict.{lookup, insert, lookup-insert, lookup-insert_self}
use sovrin.Python.Value.{Value, str, num, obj, of_dict, Object}
use sovrin.Python.Result.{ok}
use sovrin.Txn.Names
use sovrin.Wallet.Items.{has_string, opt_str}
use sovrin.Client.Files.{
  attr_key, add_cred_def, get_cred_def, read_cred_def, cred_def_file_key, given_entry, Directory,
  attribute_value, add_attribute, get_attribute, construct_attr_data, named, read_attribute,
}

other_key :
    (b : Bool)
    → let key = if b then Names.enc else Names.raw in
      (("encType" == key) ≡ false)
      × (("secretKey" == key) ≡ false)
      × ((Names.origin == key) ≡ false)
other_key true = (refl, refl, refl)
other_key false = (refl, refl, refl)

free_key :
    (h b : Bool)
    → let key = if h then Names.hash else if b then Names.enc else Names.raw in
      ((Names.name == key) ≡ false) × ((Names.target_nym == key) ≡ false)
free_key true b = (refl, refl)
free_key false true = (refl, refl)
free_key false false = (refl, refl)

same_text :
    (a b c dest : String)
    → cat (cat (a ∷ "_" ∷ b ∷ []) ∷ "_" ∷ c ∷ "_" ∷ dest ∷ [])
      ≡ cat (a ∷ "_" ∷ cat (b ∷ "_" ∷ c ∷ []) ∷ "_" ∷ dest ∷ [])
same_text a b c dest = simp (append_assoc, append-nil)

module _ (x : Directory) where
  -- the key that an attribute's data are kept under
  abbrev pub data_key_name : (hashed : Bool) → (enc_key : Option String) → String
  data_key_name hashed enc_key =
      if hashed then Names.hash else if has_string enc_key then Names.enc else Names.raw

  stored-get :
      (name : String) (dest : Option String) (d : Object) (s : x.Store) (key : String)
      → read_attribute x name dest (x.get key (x.put key (x.dumps d) s))
        ≡ ok (some (named x name dest d))
  unfolding construct_attr_data
  stored-get name dest d s key =
      rw (x.get-put key (x.dumps d) s) (rw (x.is_true-dumps d) (rw (x.loads-dumps d)))

  given_entry-other :
      (j k : String) (v : Option String) (d : Object)
      → (k == j) ≡ false
      → lookup j (given_entry x k v d) ≡ lookup j d
  given_entry-other j k v d h = elim (Bool-cases (has_string v)) [
    | inl e ↦ rw e (lookup-insert k j (opt_str v) d ∙ rw h)
    | inr e ↦ rw e
  ]

  kept_entries :
      (key : String) (val : Value) (origin : String) (enc_key enc_type : Option String)
      → ("encType" == key) ≡ false
      → ("secretKey" == key) ≡ false
      → (Names.origin == key) ≡ false
      → let base = insert Names.origin (str origin) ((key, val) ∷ []) in
        let d = given_entry x "encType" enc_type (given_entry x "secretKey" enc_key base) in
        (lookup key d ≡ some val) × (lookup Names.origin d ≡ some (str origin))
  unfolding lookup
  kept_entries key val origin enc_key enc_type not_type not_key not_origin =
      let base = insert Names.origin (str origin) ((key, val) ∷ []) in
      let d = given_entry x "secretKey" enc_key base in
      (
        given_entry-other key "encType" enc_type d not_type
            ∙ given_entry-other key "secretKey" enc_key base not_key
            ∙ lookup-insert Names.origin key (str origin) ((key, val) ∷ [])
            ∙ rw (not_origin, eq_refl key),
        given_entry-other Names.origin "encType" enc_type d refl
            ∙ given_entry-other Names.origin "secretKey" enc_key base refl
            ∙ lookup-insert_self Names.origin (str origin) ((key, val) ∷ []),
      )

  attribute_value-entries :
      (val : Value) (origin : String) (enc_key enc_type : Option String) (hashed : Bool)
      → let d = attribute_value x val origin enc_key enc_type hashed in
        (lookup (data_key_name hashed enc_key) d ≡ some val)
        × (lookup Names.origin d ≡ some (str origin))
  unfolding attribute_value
  attribute_value-entries val origin enc_key enc_type true =
      kept_entries Names.hash val origin enc_key enc_type refl refl refl
  attribute_value-entries val origin enc_key enc_type false =
      let b = has_string enc_key in
      kept_entries (if b then Names.enc else Names.raw) val origin enc_key enc_type (other_key b).0
        (other_key b).1 (other_key b).2

  named-entries :
      (name k : String) (dest : Option String) (d : Object)
      → (Names.name == k) ≡ false
      → (Names.target_nym == k) ≡ false
      → (lookup Names.name (named x name dest d) ≡ some (str name))
        × (lookup k (named x name dest d) ≡ lookup k d)
  named-entries name k dest d not_name not_dest = elim (Bool-cases (has_string dest)) [
    | inl e ↦ rw e (
      lookup-insert Names.target_nym Names.name (opt_str dest) (insert Names.name (str name) d)
          ∙ lookup-insert_self Names.name (str name) d,
      lookup-insert Names.target_nym k (opt_str dest) (insert Names.name (str name) d)
          ∙ rw not_dest (lookup-insert Names.name k (str name) d ∙ rw not_name),
    )
    | inr e ↦ rw e (
      lookup-insert_self Names.name (str name) d,
      lookup-insert Names.name k (str name) d ∙ rw not_name,
    )
  ]

  -- What is read for the name and the destination of an attribute that was just stored is an object
  -- with the name, with the value under the key for its kind (hash, encrypted or raw), and with the
  -- origin, whatever the store held.
  pub get_attribute-add_attribute :
      (name : String) (val : Value) (origin : String) (dest enc_key enc_type : Option String)
      (hashed : Bool) (s : x.Store)
      → (d : Object) × (get_attribute x name dest
            (add_attribute x name val origin dest enc_key enc_type hashed s)
          ≡ ok (some d))
        × (lookup Names.name d ≡ some (str name))
        × (lookup (data_key_name hashed enc_key) d ≡ some val)
        × (lookup Names.origin d ≡ some (str origin))
  unfolding get_attribute add_attribute
  get_attribute-add_attribute name val origin dest enc_key enc_type hashed s =
      let d = attribute_value x val origin enc_key enc_type hashed in
      let key = data_key_name hashed enc_key in
      let stored = attribute_value-entries val origin enc_key enc_type hashed in
      let at_key =
        named-entries name key dest d (free_key hashed (has_string enc_key)).0
          (free_key hashed (has_string enc_key)).1 in
      (
        named x name dest d,
        stored-get name dest d s (attr_key x name dest),
        at_key.0,
        at_key.1 ∙ stored.0,
        (named-entries name Names.origin dest d refl refl).1 ∙ stored.1,
      )

  -- Two credential definitions whose names and versions are split differently at an underscore have one
  -- file: what is read for the second is what was stored for the first.
  pub add_cred_def-same_file :
      (a b c dest type ip : String) (port : ℕ) (keys : Object) (s : x.Store)
      → let s' = add_cred_def x a (cat (b ∷ "_" ∷ c ∷ [])) dest type ip port keys s in
        (d : Object) × (get_cred_def x (cat (a ∷ "_" ∷ b ∷ [])) c dest s' ≡ ok (some d))
        × (lookup Names.typ d ≡ some (str type))
        × (lookup Names.port d ≡ some (num port))
        × (lookup Names.version d ≡ some (str c))
  unfolding get_cred_def add_cred_def cred_def_file_key lookup insert
  add_cred_def-same_file a b c dest type ip port keys s =
      let d : Object =
        (Names.typ, str type)
        ∷ (Names.ip, str ip)
        ∷ (Names.port, num port)
        ∷ (Names.keys, obj (of_dict keys))
        ∷ [] in
      let name = cat (a ∷ "_" ∷ b ∷ []) in
      let text = x.dumps d in
      let key = cred_def_file_key x name c dest in
      (
        insert Names.target_nym (str dest)
            (insert Names.version (str c) (insert Names.name (str name) d)),
        ap (λ (k : String). read_cred_def x name c dest (x.get key (x.put (x.to_base64 k) text s)))
              (sym (same_text a b c dest))
            ∙ rw (x.get-put key text s) (rw (x.is_true-dumps d) (rw (x.loads-dumps d))),
        refl,
        refl,
        refl,
      )
