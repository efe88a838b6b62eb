-- ===== src/Graph/Nyms/Edges.antt =====
-- Updating an edge by its transaction leaves what the nym queries read.
use mathlib.Core.Option
use sovrin.Prelude.{
  String, ◌≡◌, refl, Bool, false, List, [], ◌∷◌, find, map, arith, String-Eq, ap, ◌∙◌, Bool-cases,
  inl, inr,
}
use sovrin.Python.Dict.{insert, update, lookup-insert}
use sovrin.Python.Value.{Value, Object, get}
use sovrin.Txn.Names
use sovrin.Graph.Db.{Edge, set_props, same_text}
use sovrin.Graph.Nyms.{edge_updates, is_null, has_text, txn_edge_props}

-- `find` through a map that the test does not see
pub find-map {ℓ} :
    {A : Type ℓ} (p : A → Bool) (g : A → A)
    → ((a : A) → p (g a) ≡ p a)
    → (xs : List A) → find p (map g xs) ≡ Option.map g (find p xs)
find-map p g same [] = refl
find-map p g same (x ∷ xs) = ground (arith, same x, find-map p g same xs)

-- Writing only other keys leaves a key.
abbrev pub Avoids : String → List String → Type 0
Avoids k [] = Unit
Avoids k (j ∷ js) = (String-Eq.beq j k ≡ false) × Avoids k js

pub get-insert_other :
    (k j : String) (v : Value) (d : Object)
    → String-Eq.beq j k ≡ false
    → get k (insert j v d) ≡ get k d
unfolding get
get-insert_other k j v d h = rw (lookup-insert, h)

pub get-update_edge :
    (k : String) (ks : List String) (txn d : Object)
    → Avoids k ks
    → get k (update d (edge_updates ks txn)) ≡ get k d
unfolding update edge_updates
get-update_edge k [] txn d h = refl
get-update_edge k (j ∷ js) txn d (h, hs) = elim (Bool-cases (is_null (get j txn))) [
  | inl missing ↦ rw missing (get-update_edge k js txn d hs)
  | inr there ↦
      rw there (
        get-update_edge k js txn (insert j (get j txn) d) hs ∙ get-insert_other k j (get j txn) d h)
]

-- the edge after the update by its transaction
abbrev pub updated : String → Object → Edge → Edge
updated id txn = set_props id (edge_updates txn_edge_props txn)

module _ (k : String) (avoids : Avoids k txn_edge_props) (id : String) (txn : Object) where
  pub get-updated : (e : Edge) → get k (updated id txn e).props ≡ get k e.props
  get-updated e = ground (arith, get-update_edge k txn_edge_props txn e.props avoids)

  pub find-updated :
      (v : Value) (es : List Edge)
      → find (λ (e : Edge). has_text k v e.props) (map (updated id txn) es)
        ≡ Option.map (updated id txn) (find (λ (e : Edge). has_text k v e.props) es)
  find-updated v es =
      find-map (λ (e : Edge). has_text k v e.props) (updated id txn)
        (λ e. ap (same_text v) (get-updated e)) es

module _ (id : String) (p : Object) where
  pub source-updated : (e : Edge) → (set_props id p e).source ≡ e.source
  source-updated e = ground arith

  pub target-updated : (e : Edge) → (set_props id p e).target ≡ e.target
  target-updated e = ground arith

-- The keys that the queries on edges read are not updated.
pub nym-Avoids : Avoids Names.nym txn_edge_props
nym-Avoids = ground arith

pub txn_id-Avoids : Avoids Names.txn_id txn_edge_props
txn_id-Avoids = ground arith

pub role-Avoids : Avoids Names.role txn_edge_props
role-Avoids = ground arith
