-- ===== src/Graph/Memory.antt =====
-- A database in memory that meets the interface: records are numbered in the order of creation.
use sovrin.Prelude.{
  ℕ, suc, ◌+◌, String, ◌≡◌, refl, Bool, true, Option, none, some, List, [], ◌∷◌, ◌++◌, map, find,
  arith, if◌then◌else◌, nat_eq, length, ap, ◌≤◌, ◌∙◌, Bool-cases, inl, inr,
}
use sovrin.Python.Value.{Object, str, num}
use sovrin.Txn.Names
use sovrin.Python.Result.{Result, ok, err, orient_duplicated, orient_command}
use sovrin.Graph.Db.{
  OrientDb, Vertex, Edge, VertexClass, EdgeClass, vertex_clash, edge_clash, set_props,
  same_vertex_class, same_edge_class, same_vertex_class_eq, same_edge_class_eq,
}

pub record Memory : Type 0 where
  pub rows : VertexClass → List Object
  pub links : EdgeClass → List Edge

abbrev pub number_from : ℕ → List Object → List Vertex
number_from k [] = []
number_from k (p ∷ ps) = record { rid = k; props = p } ∷ number_from (suc k) ps

abbrev pub records : VertexClass → Memory → List Vertex
records c m = number_from 0 (m.rows c)

abbrev pub set_rows :
    VertexClass → List Object → (VertexClass → List Object) → VertexClass → List Object
set_rows c rows old d = if same_vertex_class c d then rows else old d

abbrev pub set_links : EdgeClass → List Edge → (EdgeClass → List Edge) → EdgeClass → List Edge
set_links c links old d = if same_edge_class c d then links else old d

abbrev pub insert_row : VertexClass → Object → Memory → Result Vertex × Memory
insert_row c p m = if vertex_clash c p (records c m) then (err orient_duplicated, m) else (
  ok (record { rid = length (m.rows c); props = p }),
  record m { rows = set_rows c (m.rows c ++ p ∷ []) m.rows },
)

abbrev pub insert_link :
    EdgeClass → Option Vertex → Option Vertex → Object → Memory → Result (Unit {0}) × Memory
insert_link c none w p m = (err orient_command, m)
insert_link c (some v) none p m = (err orient_command, m)
insert_link c (some v) (some w) p m =
    if edge_clash p (m.links c) then (err orient_duplicated, m) else (
      ok tt,
      record m {
        links =
            set_links c (m.links c ++ record { source = v.rid; target = w.rid; props = p } ∷ [])
              m.links;
      },
    )

abbrev pub update_links : EdgeClass → String → Object → Memory → Result (Unit {0}) × Memory
update_links c id p m =
    (ok tt, record m { links = set_links c (map (set_props id p) (m.links c)) m.links })

number_from-append :
    (k : ℕ) (ps : List Object) (p : Object)
    → number_from k (ps ++ p ∷ [])
      ≡ number_from k ps ++ record { rid = k + length ps; props = p } ∷ []
number_from-append k [] p = ground arith
number_from-append k (q ∷ ps) p =
    ap (λ (vs : List Vertex). record { rid = k; props = q } ∷ vs)
      (number_from-append (suc k) ps p
        ∙ ap (λ (r : ℕ). number_from (suc k) ps ++ record { rid = r; props = p } ∷ [])
            (next k (length ps)))
  where
    next : (k l : ℕ) → suc k + l ≡ k + suc l
    next k l = omega arith

rid-ge :
    (q : Vertex → Bool) (k : ℕ) (ps : List Object) (v : Vertex)
    → find q (number_from k ps) ≡ some v
    → k ≤ v.rid
rid-ge q k [] v h = ground arith
rid-ge q k (p ∷ ps) v h = ground (arith, rid-ge q (suc k) ps v)

pub rid_unique :
    (q : Vertex → Bool) (k : ℕ) (ps : List Object) (v : Vertex)
    → find q (number_from k ps) ≡ some v
    → find (λ (w : Vertex). nat_eq w.rid v.rid) (number_from k ps) ≡ some v
rid_unique q k [] v h = ground arith
rid_unique q k (p ∷ ps) v h = ground (arith, rid_unique q (suc k) ps v, rid-ge q (suc k) ps v)

module _ (c d : VertexClass) (p : Object) (m : Memory) where
  pub records-insert_row : records d (insert_row c p m).1 ≡ (
      if vertex_clash c p (records c m)
      then records d m
      else if same_vertex_class c d
      then records d m ++ record { rid = length (m.rows c); props = p } ∷ []
      else records d m)
  records-insert_row = elim (Bool-cases (vertex_clash c p (records c m))) [
    | inl clash ↦ rw clash
    | inr free ↦ elim (Bool-cases (same_vertex_class c d)) [
      | inl same ↦
          rw (free, same)
            (number_from-append 0 (m.rows c) p
              ∙ ap (λ (r : ℕ). records c m ++ record { rid = r; props = p } ∷ []) zero_add
              ∙ ap
                  (λ (e : VertexClass).
                    records e m ++ record { rid = length (m.rows c); props = p } ∷ [])
                  (same_vertex_class_eq c d same))
      | inr other ↦ rw (free, other)
    ]
  ]
    where
      zero_add : 0 + length (m.rows c) ≡ length (m.rows c)
      zero_add = omega arith

module _ (c d : EdgeClass) (m : Memory) where
  pub links-insert_link :
      (v w : Vertex) (p : Object)
      → (insert_link c (some v) (some w) p m).1.links d ≡ (
          if edge_clash p (m.links c)
          then m.links d
          else if same_edge_class c d
          then m.links d ++ record { source = v.rid; target = w.rid; props = p } ∷ []
          else m.links d)
  links-insert_link v w p = elim (Bool-cases (same_edge_class c d)) [
    | inl same ↦ rw (same_edge_class_eq c d same) (ground arith)
    | inr other ↦ rw other (ground arith)
  ]

  pub links-update_links :
      (id : String) (p : Object)
      → (update_links c id p m).1.links d
        ≡ (if same_edge_class c d then map (set_props id p) (m.links d) else m.links d)
  links-update_links id p = elim (Bool-cases (same_edge_class c d)) [
    | inl same ↦ rw (same_edge_class_eq c d same) (ground arith)
    | inr other ↦ rw other
  ]

pub result-insert_row :
    (c : VertexClass) (p : Object) (m : Memory)
    → (insert_row c p m).0 ≡ (
        if vertex_clash c p (records c m)
        then err orient_duplicated
        else ok (record { rid = length (m.rows c); props = p }))
result-insert_row c p m = ground arith

pub links-insert_row :
    (c : VertexClass) (d : EdgeClass) (p : Object) (m : Memory)
    → (insert_row c p m).1.links d ≡ m.links d
links-insert_row c d p m = ground arith

pub refused-insert_row :
    (c : VertexClass) (p : Object) (m : Memory)
    → vertex_clash c p (records c m) ≡ true
    → insert_row c p m ≡ (err orient_duplicated, m)
refused-insert_row c p m clash = rw clash

pub result-insert_link :
    (c : EdgeClass) (v w : Vertex) (p : Object) (m : Memory)
    → (insert_link c (some v) (some w) p m).0
      ≡ (if edge_clash p (m.links c) then err orient_duplicated else ok tt)
result-insert_link c v w p m = ground arith

pub records-insert_link :
    (c : EdgeClass) (d : VertexClass) (v w : Option Vertex) (p : Object) (m : Memory)
    → records d (insert_link c v w p m).1 ≡ records d m
records-insert_link c d none w p m = refl
records-insert_link c d (some v) none p m = refl
records-insert_link c d (some v) (some w) p m = ground arith

abbrev pub memory : OrientDb
memory = record {
  Store = Memory;
  vertices = records;
  edges = λ c m. m.links c;
  next_rid = λ c m. length (m.rows c);
  create_vertex = insert_row;
  create_edge = insert_link;
  update_edges = update_links;
  rid_unique = λ c m q v. rid_unique q 0 (m.rows c) v;
  result-create_vertex = result-insert_row;
  vertices-create_vertex = records-insert_row;
  refused-create_vertex = refused-insert_row;
  edges-create_vertex = links-insert_row;
  no_source = λ c w p m. refl;
  no_target = λ c v p m. refl;
  result-create_edge = result-insert_link;
  edges-create_edge = λ c d v w p m. links-insert_link c d m v w p;
  vertices-create_edge = records-insert_link;
  result-update_edges = λ c id p m. refl;
  edges-update_edges = λ c d id p m. links-update_links c d m id p;
  vertices-update_edges = λ c d id p m. refl;
}

abbrev pub empty : Memory
empty = record { rows = λ c. []; links = λ c. [] }

-- a graph with one nym, a steward
abbrev pub steward_props : Object
steward_props =
    (Names.nym, str "Steward1")
    ∷ (Names.txn_id, str "6b86")
    ∷ (Names.role, str Names.steward)
    ∷ (Names.seq_no, num 1)
    ∷ []

abbrev steward_rows : VertexClass → List Object
steward_rows VertexClass.nym = steward_props ∷ []
steward_rows _ = []

abbrev pub one_steward : Memory
one_steward = record { rows = steward_rows; links = λ c. [] }
