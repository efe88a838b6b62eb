-- ===== src/Client/Files/Tests.antt =====
-- The theorems on the stores in files, with a directory in memory.
use sovrin.Prelude.{
  ◌≡◌, String, Bool, true, false, refl, none, some, [], String-Eq, ◌==◌, ◌∙◌, ap, if◌then◌else◌,
}
use sovrin.Python.Dict.{Dict, lookup, insert, lookup-insert, lookup-insert_self}
use sovrin.Python.Value.{str, num, Object}
use sovrin.Python.Result.{ok}
use sovrin.Txn.Names
use sovrin.Client.Files.{Directory, add_attribute, get_attribute, add_cred_def, get_cred_def}
use sovrin.Client.Files.Kept.{get_attribute-add_attribute, add_cred_def-same_file}

other_file :
    (k j : String) (t : Object) (s : Dict String Object)
    → (k == j) ≡ false
    → lookup j (insert k t s) ≡ lookup j s
other_file k j t s h = lookup-insert k j t s ∙ ap (λ (b : Bool). if b then some t else lookup j s) h

abbrev in_memory : Directory
in_memory = record {
  Store = Dict String Object;
  Text = Object;
  put = λ k t s. insert k t s;
  get = λ k s. lookup k s;
  get-put = lookup-insert_self;
  get-put_other = other_file;
  dumps = λ d. d;
  loads = λ t. ok t;
  is_true = λ t. true;
  loads-dumps = λ d. refl;
  is_true-dumps = λ d. refl;
  to_base64 = λ s. s;
}

get_attribute-add_attribute_example :
    (d : Object) × (get_attribute in_memory "age"
        (some "Alice")
        (add_attribute in_memory "age" (num 30) "Faber" (some "Alice") none none false [])
      ≡ ok (some d))
    × (lookup Names.name d ≡ some (str "age"))
    × (lookup Names.raw d ≡ some (num 30))
    × (lookup Names.origin d ≡ some (str "Faber"))
get_attribute-add_attribute_example =
    get_attribute-add_attribute in_memory "age" (num 30) "Faber" (some "Alice") none none false []

add_cred_def-same_file_example :
    let s' = add_cred_def in_memory "job" "cert_1.0" "Faber" "CL" "ip" 80 [] [] in
    (d : Object) × (get_cred_def in_memory "job_cert" "1.0" "Faber" s' ≡ ok (some d))
    × (lookup Names.typ d ≡ some (str "CL"))
    × (lookup Names.port d ≡ some (num 80))
    × (lookup Names.version d ≡ some (str "1.0"))
add_cred_def-same_file_example =
    add_cred_def-same_file in_memory "job" "cert" "1.0" "Faber" "CL" "ip" 80 [] []
