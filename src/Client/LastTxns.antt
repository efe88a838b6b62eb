-- ===== src/Client/LastTxns.antt =====
-- `setLastTxnForIdentifier` and `getLastTxnForIdentifier` of
-- sovrin/persistence/client_req_rep_store_file.py. The file is the list of the JSON documents
-- written to it: `json.loads` reads a text with one document, and a write after the read appends.
use sovrin.Prelude.{String, ◌≡◌, refl, List, [], ◌∷◌, ◌++◌, String-Eq}
use sovrin.Python.Dict.{lookup, insert, lookup-insert_self}
use sovrin.Python.Value.{Value, Object, or_null}
use sovrin.Python.Result.{Result, ok, err, value_error}

abbrev read_doc : List Object → Result Object
read_doc [] = ok []
read_doc (d ∷ []) = ok d
read_doc (d ∷ e ∷ ds) = err value_error

abbrev write_doc : Result Object → String → Value → List Object → Result (Unit {0}) × List Object
write_doc (err e) i v docs = (err e, docs)
write_doc (ok d) i v docs = (ok tt, docs ++ insert i v d ∷ [])

unfoldable pub set_last_txn_for_identifier :
    String → Value → List Object → Result (Unit {0}) × List Object
unfolding insert
set_last_txn_for_identifier i v docs = write_doc (read_doc docs) i v docs

abbrev get_from : Result Object → String → Result Value
get_from (err e) i = err e
get_from (ok d) i = ok (or_null (lookup i d))

-- a file that is not there has no documents
unfoldable pub get_last_txn_for_identifier : String → List Object → Result Value
unfolding lookup
get_last_txn_for_identifier i docs = get_from (read_doc docs) i

-- From an empty file, what was set first is what is read, for every identifier; after a second
-- call, which returns, reading raises and so does setting, for every identifier.
pub set_last_txn-twice :
    (i j k : String) (v w u : Value)
    → let once = (set_last_txn_for_identifier i v []).1 in
      let twice = (set_last_txn_for_identifier j w once).1 in
      (get_last_txn_for_identifier i once ≡ ok v)
      × ((set_last_txn_for_identifier j w once).0 ≡ ok tt)
      × (get_last_txn_for_identifier k twice ≡ err value_error)
      × (set_last_txn_for_identifier k u twice ≡ (err value_error, twice))
unfolding set_last_txn_for_identifier get_last_txn_for_identifier
set_last_txn-twice i j k v w u = (rw (lookup-insert_self i v []) refl, refl, refl, refl)
