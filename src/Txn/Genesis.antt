-- ===== src/Txn/Genesis.antt =====
-- `getGenesisTxns` and `getGenesisTxnsForLocal` of sovrin/common/txn.py.
use sovrin.Prelude.{List, [], ◌∷◌}
use sovrin.Python.Value.{str, Object}
use sovrin.Txn.Names

abbrev pub genesis_txns : List Object
genesis_txns =
    ((Names.alias, str "Steward1")
      ∷ (Names.target_nym, str "SAdaWX5yGhVuLgeZ3lzAxTJNxufq8c3UYlCGjsUyFd0=")
      ∷ (Names.txn_id, str "6b86b273ff34fce19d6b804eff5a3f5747ada4eaa22f1d49c01e52ddb7875b4b")
      ∷ (Names.txn_type, str Names.nym)
      ∷ (Names.role, str Names.steward)
      ∷ [])
    ∷ ((Names.alias, str "Steward2")
        ∷ (Names.target_nym, str "F8t5+ytBIPKx7GXkGY1uCLKOgT/rAeSkAIObheGAgM4=")
        ∷ (Names.txn_id, str "6b86b273ff34fce19d6b804eff5a3f5747ada4eaa22f1d49c01e52ddb7875b4c")
        ∷ (Names.txn_type, str Names.nym)
        ∷ (Names.role, str Names.steward)
        ∷ [])
    ∷ ((Names.alias, str "Steward3")
        ∷ (Names.target_nym, str "ptJFXqOldxq6n8sDeSQRTJL58yUEn2tCaec52QSLuGk=")
        ∷ (Names.txn_id, str "6b86b273ff34fce19d6b804eff5a3f5747ada4eaa22f1d49c01e52ddb7875b4d")
        ∷ (Names.txn_type, str Names.nym)
        ∷ (Names.role, str Names.steward)
        ∷ [])
    ∷ ((Names.alias, str "Steward4")
        ∷ (Names.target_nym, str "LISK2GZO5lHkiWwTqEqJopZKyl63eouIHmDe1cgbTp0=")
        ∷ (Names.txn_id, str "6b86b273ff34fce19d6b804eff5a3f5747ada4eaa22f1d49c01e52ddb7875b4e")
        ∷ (Names.txn_type, str Names.nym)
        ∷ (Names.role, str Names.steward)
        ∷ [])
    ∷ ((Names.alias, str "Steward5")
        ∷ (Names.target_nym, str "Lwp7KfU2UgBc1HIKP+es0IyFpOKc1vSNGQXidtrG/+8=")
        ∷ (Names.txn_id, str "6b86b273ff34fce19d6b804eff5a3f5747ada4eaa22f1d49c01e52ddb7875b4f")
        ∷ (Names.txn_type, str Names.nym)
        ∷ (Names.role, str Names.steward)
        ∷ [])
    ∷ ((Names.alias, str "Steward6")
        ∷ (Names.target_nym, str "NLTZBDFWy23PC+sKKUm3VZyUDSvLbb6MU6mzAnjjp0Y=")
        ∷ (Names.txn_id, str "6b86b273ff34fce19d6b804eff5a3f5747ada4eaa22f1d49c01e52ddb7875b50")
        ∷ (Names.txn_type, str Names.nym)
        ∷ (Names.role, str Names.steward)
        ∷ [])
    ∷ ((Names.alias, str "Steward7")
        ∷ (Names.target_nym, str "1i8Bah79Hk/feT60LNhEceG6nwzwTRKHtcxx9hYofLg=")
        ∷ (Names.txn_id, str "6b86b273ff34fce19d6b804eff5a3f5747ada4eaa22f1d49c01e52ddb7875b51")
        ∷ (Names.txn_type, str Names.nym)
        ∷ (Names.role, str Names.steward)
        ∷ [])
    ∷ ((Names.txn_type, str Names.nym)
        ∷ (Names.target_nym, str "xRuFk+Z8yWFVRvf1Z4JWe1f82Ew3nmr73ghN2oS9PVI=")
        ∷ (Names.role, str Names.steward)
        ∷ (Names.txn_id, str "6b86b273ff34fce19d6b804eff5a3f5747ada4eaa22f1d49c01e52ddb7875b4b")
        ∷ [])
    ∷ ((Names.txn_type, str Names.nym)
        ∷ (Names.identifier, str "xRuFk+Z8yWFVRvf1Z4JWe1f82Ew3nmr73ghN2oS9PVI=")
        ∷ (Names.target_nym, str "o7z4QmFkNB+mVkFI2BwX0Hdm1BGhnz8psWnKYIXWTaQ=")
        ∷ (Names.role, str Names.sponsor)
        ∷ (Names.txn_id, str "6b86b273ff34fce19d6b804eff5a3f5747ada4eaa22f1d49c01e52ddb7875b4c")
        ∷ [])
    ∷ ((Names.txn_type, str Names.nym)
        ∷ (Names.target_nym, str "OP2h59vBVQerRi6FjoOoMhSTv4CAemeEg4LPtDHaEWw=")
        ∷ (Names.txn_id, str "50c2f66f7fda2ece684d1befc667e894b4460cb782f5387d864fa7d5f14c4066")
        ∷ (Names.role, str Names.sponsor)
        ∷ (Names.identifier, str "xRuFk+Z8yWFVRvf1Z4JWe1f82Ew3nmr73ghN2oS9PVI=")
        ∷ [])
    ∷ ((Names.txn_type, str Names.nym)
        ∷ (Names.target_nym, str "adityastaging")
        ∷ (Names.txn_id, str "77c2f66f7fda2ece684d1befc667e894b4460cb782f5387d864fa7d5f14c4066")
        ∷ (Names.identifier, str "OP2h59vBVQerRi6FjoOoMhSTv4CAemeEg4LPtDHaEWw=")
        ∷ [])
    ∷ ((Names.txn_type, str Names.nym)
        ∷ (Names.target_nym, str "iosstaging")
        ∷ (Names.txn_id, str "91c2f66f7fda2ece684d1befc667e894b4460cb782f5387d864fa7d5f14c4066")
        ∷ (Names.identifier, str "OP2h59vBVQerRi6FjoOoMhSTv4CAemeEg4LPtDHaEWw=")
        ∷ [])
    ∷ ((Names.alias, str "Steward8")
        ∷ (Names.target_nym, str "V+jbY0Fniz7xFzYIrRYeVQZeDeGHrlB3fwCPEwvicqI=")
        ∷ (Names.txn_id, str "4770beb7e45bf623bd9987af4bd6d6d8eb8b68a4d00fa2a4c6b6f3f0c1c036f8")
        ∷ (Names.txn_type, str Names.nym)
        ∷ (Names.role, str Names.steward)
        ∷ [])
    ∷ []

abbrev pub local_genesis_txns : List Object
local_genesis_txns =
    ((Names.alias, str "Steward1")
      ∷ (Names.target_nym, str "SAdaWX5yGhVuLgeZ3lzAxTJNxufq8c3UYlCGjsUyFd0=")
      ∷ (Names.txn_id, str "6b86b273ff34fce19d6b804eff5a3f5747ada4eaa22f1d49c01e52ddb7875b4b")
      ∷ (Names.txn_type, str Names.nym)
      ∷ (Names.role, str Names.steward)
      ∷ [])
    ∷ ((Names.alias, str "Steward2")
        ∷ (Names.target_nym, str "F8t5+ytBIPKx7GXkGY1uCLKOgT/rpool_AeSkAIObheGAgM4=")
        ∷ (Names.txn_id, str "6b86b273ff34fce19d6b804eff5a3f5747ada4eaa22f1d49c01e52ddb7875b4c")
        ∷ (Names.txn_type, str Names.nym)
        ∷ (Names.role, str Names.steward)
        ∷ [])
    ∷ ((Names.alias, str "Steward3")
        ∷ (Names.target_nym, str "ptJFXqOldxq6n8sDeSQRTJL58yUEn2tCaec52QSLuGk=")
        ∷ (Names.txn_id, str "6b86b273ff34fce19d6b804eff5a3f5747ada4eaa22f1d49c01e52ddb7875b4d")
        ∷ (Names.txn_type, str Names.nym)
        ∷ (Names.role, str Names.steward)
        ∷ [])
    ∷ ((Names.alias, str "Steward4")
        ∷ (Names.target_nym, str "LISK2GZO5lHkiWwTqEqJopZKyl63eouIHmDe1cgbTp0=")
        ∷ (Names.txn_id, str "6b86b273ff34fce19d6b804eff5a3f5747ada4eaa22f1d49c01e52ddb7875b4e")
        ∷ (Names.txn_type, str Names.nym)
        ∷ (Names.role, str Names.steward)
        ∷ [])
    ∷ ((Names.alias, str "Alice")
        ∷ (Names.target_nym, str "Lwp7KfU2UgBc1HIKP+es0IyFpOKc1vSNGQXidtrG/+8=")
        ∷ (Names.identifier, str "SAdaWX5yGhVuLgeZ3lzAxTJNxufq8c3UYlCGjsUyFd0=")
        ∷ (Names.txn_id, str "e7f6c011776e8db7cd330b54174fd76f7d0216b612387a5ffcfb81e6f0919683")
        ∷ (Names.txn_type, str Names.nym)
        ∷ [])
    ∷ ((Names.alias, str "Jason")
        ∷ (Names.target_nym, str "LfBBJfABWvtHzoU674dyCU/5SYwUyxueEpc8KSfaD6Y=")
        ∷ (Names.identifier, str "SAdaWX5yGhVuLgeZ3lzAxTJNxufq8c3UYlCGjsUyFd0=")
        ∷ (Names.txn_id, str "e7f6c011776e8db7cd330b54174fd76f7d0216b612387a5ffcfb81e6f0919684")
        ∷ (Names.txn_type, str Names.nym)
        ∷ [])
    ∷ ((Names.alias, str "John")
        ∷ (Names.target_nym, str "K8KACzMW4Akgn/11fasZzPCuhLx66QZU4egXEtJw9lM=")
        ∷ (Names.identifier, str "SAdaWX5yGhVuLgeZ3lzAxTJNxufq8c3UYlCGjsUyFd0=")
        ∷ (Names.txn_id, str "e7f6c011776e8db7cd330b54174fd76f7d0216b612387a5ffcfb81e6f0919685")
        ∷ (Names.txn_type, str Names.nym)
        ∷ [])
    ∷ ((Names.alias, str "Les")
        ∷ (Names.target_nym, str "NLTZBDFWy23PC+sKKUm3VZyUDSvLbb6MU6mzAnjjp0Y=")
        ∷ (Names.identifier, str "SAdaWX5yGhVuLgeZ3lzAxTJNxufq8c3UYlCGjsUyFd0=")
        ∷ (Names.txn_id, str "e7f6c011776e8db7cd330b54174fd76f7d0216b612387a5ffcfb81e6f0919686")
        ∷ (Names.txn_type, str Names.nym)
        ∷ [])
    ∷ []
