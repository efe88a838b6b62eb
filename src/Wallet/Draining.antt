-- ===== src/Wallet/Draining.antt =====
-- The loop of `preparePending` as it is written, with fuel for its rounds: each takes the request at
-- the right end of the queue.
use sovrin.Prelude.{
  ℕ, zero, suc, ◌<◌, ◌≡◌, refl, ◌∙◌, ap, sym, Option, none, some, List, [], ◌∷◌, ◌++◌, length,
  length-append, arith, String-Eq, ℕ-Eq, Pair-Eq, String,
}
use mathlib.Core.List.{reverse, reverse-cons, reverse-reverse}
use sovrin.Python.Dict.{Dict, insert}
use sovrin.Wallet.Items.{Draft}
use sovrin.Wallet.{Key, Signed, Signer, Wallet, sign_all, prepared_key}

module _ {A : Type 0} where
  abbrev keep_left : A → Option (A × List A) → Option (A × List A)
  keep_left a none = some (a, [])
  keep_left a (some (b, bs)) = some (b, a ∷ bs)

  -- `deque.pop`, of the right end
  unfoldable pub pop : List A → Option (A × List A)
  pop [] = none
  pop (a ∷ bs) = keep_left a (pop bs)

  pop-append : (bs : List A) (a : A) → pop (bs ++ a ∷ []) ≡ some (a, bs)
  unfolding pop
  pop-append [] a = refl
  pop-append (b ∷ bs) a = rw (pop-append bs a)

  length-reverse : (bs : List A) → length (reverse bs) ≡ length bs
  length-reverse [] = refl
  length-reverse (b ∷ bs) =
      ap length (reverse-cons b bs)
      ∙ length-append (reverse bs) (b ∷ [])
      ∙ omega (arith, length-reverse bs)

module _ (g : Signer) where
  abbrev Prepared : Type 0
  Prepared = Dict (String × ℕ) (Signed × Key)

  unfoldable pub drain :
      (fuel : ℕ) → (pending : List (Draft × Key)) → g.Core → Prepared → Option (Prepared × g.Core)
  unfolding pop insert
  drain zero pending c new = none
  drain (suc fuel) pending c new = elim (pop pending) [
    | none ↦ some (new, c)
    | some ((d, k), rest) ↦
        let (r, c') = g.sign_request c d in drain fuel rest c' (insert (prepared_key r) (r, k) new)
  ]

  drain-reverse :
      (fuel : ℕ) (ds : List (Draft × Key)) (c : g.Core) (new : Prepared)
      → length ds < fuel
      → drain fuel (reverse ds) c new ≡ some (sign_all g ds c new)
  unfolding drain sign_all
  drain-reverse zero ds c new h = ground arith
  drain-reverse (suc fuel) [] c new h = refl
  drain-reverse (suc fuel) ((d, k) ∷ ds) c new h =
      let r = (g.sign_request c d).0 in
      rw (reverse-cons (d, k) ds) (
        rw (pop-append (reverse ds) (d, k), drain)
          (drain-reverse fuel ds (g.sign_request c d).1 (insert (prepared_key r) (r, k) new)
            (omega (arith, h))))

  -- The loop of `preparePending` ends: with fuel for more rounds than requests are pending it empties
  -- the queue, and has then signed every request, the oldest first, as the recursion over the queue
  -- from its right end does.
  pub drain-ends :
      (fuel : ℕ) (w : Wallet g)
      → length w.pending < fuel
      → drain fuel w.pending w.core [] ≡ some (sign_all g (reverse w.pending) w.core [])
  drain-ends fuel w h =
      ap (λ (q : List (Draft × Key)). drain fuel q w.core []) (sym (reverse-reverse w.pending))
      ∙ drain-reverse fuel (reverse w.pending) w.core [] (rw (length-reverse w.pending) h)
