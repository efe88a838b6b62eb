-- ===== src/Client/Replies/Notified.antt =====
-- The observers of a reply.
use sovrin.Prelude.{String, ◌≡◌, refl, Bool, [], ◌∷◌, String-Eq}
use sovrin.Python.Dict.{Dict}
use sovrin.Python.Value.{Object}
use sovrin.Python.Result.{Result, ok, err}
use sovrin.Python.Exec.{catching, handle_result}
use sovrin.Graph.Db.{OrientDb}
use sovrin.Client.Replies.{Outside, ignore, notify_all}

module _ {W O : Type 0} (out : Outside W O) (db : OrientDb) (has_graph : Bool) where
  -- what the observers do, each after those before it
  abbrev pub called : Object → Dict String O → W → W
  called result [] w = w
  called result ((name, o) ∷ os) w = called result os (out.call o name result w).1

  call-returns :
      (name : String) (o : O) (result : Object) (w : W)
      → catching (out.call o name result) (ignore out db has_graph) w
        ≡ (ok tt, (out.call o name result w).1)
  call-returns name o result w = handled (out.call o name result w)
    where
      handled :
          (r : Result Unit × W) → handle_result r.0 (ignore out db has_graph) r.1 ≡ (ok tt, r.1)
      handled (ok u, w') = refl
      handled (err e, w') = refl

  -- Every observer gets the reply, in the order of registration, whichever of them raise, and the
  -- loop over them returns.
  pub notify_all-called :
      (result : Object) (os : Dict String O) (w : W)
      → notify_all out db has_graph result os w ≡ (ok tt, called result os w)
  unfolding notify_all
  notify_all-called result [] w = refl
  notify_all-called result ((name, o) ∷ os) w =
      rw (call-returns name o result w) (notify_all-called result os (out.call o name result w).1)
