-- ===== src/Client/Observers.antt =====
-- Registering and deregistering an observer.
use sovrin.Prelude.{
  String, ◌≡◌, refl, true, false, some, List, [], ◌∷◌, ◌++◌, arith, String-Eq, eq_refl, Eq,
  beq_refl, ◌==◌,
}
use sovrin.Python.Dict.{Dict, insert, contains, erase, lookup-insert_self, contains-insert}
use sovrin.Python.Result.{ok, err, runtime_error}
use sovrin.Client.{Observed, in_set, set_remove, register_observer, deregister_observer}

erase-fresh {ℓ} :
    {V : Type ℓ} (n : String) (d : Dict String V) → contains n d ≡ false → erase n d ≡ d
unfolding contains erase
erase-fresh n [] h = refl
erase-fresh n ((j, v) ∷ d) h = ground (arith, erase-fresh n d)

erase-insert {ℓ} :
    {V : Type ℓ} (n : String) (v : V) (d : Dict String V)
    → contains n d ≡ false
    → erase n (insert n v d) ≡ d
unfolding contains erase insert
erase-insert n v [] h = ground (arith, eq_refl n)
erase-insert n v ((j, w) ∷ d) h = ground (arith, erase-insert n v d)

module _ {O : Type 0} ⦃e : Eq O⦄ where
  set_remove-add : (o : O) (os : List O) → in_set o os ≡ false → set_remove o (os ++ o ∷ []) ≡ os
  set_remove-add o [] h = ground (arith, beq_refl o)
  set_remove-add o (q ∷ os) h = ground (arith, set_remove-add o os)

  in_set-add : (o : O) (os : List O) → in_set o (os ++ o ∷ []) ≡ true
  in_set-add o [] = ground (arith, beq_refl o)
  in_set-add o (q ∷ os) = ground (arith, in_set-add o os)

  contains-insert_self : (n : String) (o : O) (d : Dict String O) → contains n (insert n o d) ≡ true
  contains-insert_self n o d = ground (arith, contains-insert n n o d, eq_refl n)

  -- An observer that registers under a name, where neither is registered, can be deregistered by
  -- the name, which leaves the client as it was; while it is registered, nobody registers under the
  -- name, and it does not register again.
  pub deregister-register :
      (fresh : String) (o : O) (n : String) (s : Observed O)
      → (n == "") ≡ false
      → contains n s.observers ≡ false
      → in_set o s.observer_set ≡ false
      → let (r, s') = register_observer fresh o (some n) s in
        (r ≡ ok tt)
        × (deregister_observer n s' ≡ (ok tt, s))
        × ((q : O) → register_observer fresh q (some n) s' ≡ (err runtime_error, s'))
        × ((m : String) → register_observer fresh o (some m) s' ≡ (err runtime_error, s'))
  unfolding register_observer deregister_observer
  deregister-register fresh o n s named free new =
      rw (named, free)
        (rw new (
          refl,
          rw (lookup-insert_self n o s.observers)
              (rw (erase-insert n o s.observers free, set_remove-add o s.observer_set new) refl),
          λ q. rw (contains-insert_self n o s.observers) refl,
          λ m. ground (arith, in_set-add o s.observer_set),
        ))
