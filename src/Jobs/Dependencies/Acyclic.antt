-- ===== src/Jobs/Dependencies/Acyclic.antt =====
-- AddDependency keeps the dependency graph free of cycles.
use doublangu.Prelude.{◌≡◌, sym, ◌⊎◌, inl, inr, false, List, arith, ◌==◌, exists_where}
use doublangu.Jobs.Types.{Ulid, Edge, Db}
use doublangu.Jobs.Dependencies.{reaches, insert_edge, add_dependency_tx, add_dependency}
use doublangu.Jobs.Dependencies.Graph.{Linked, Reaches, edge, step, Acyclic}
use doublangu.Jobs.Dependencies.Search.{reaches_iff}

Linked-insert_edge :
    (a b c d : Ulid) (es : List Edge)
    → Linked (insert_edge a b es) c d
    → Linked es c d ⊎ ((a ≡ c) × (b ≡ d))
unfolding insert_edge exists_where
Linked-insert_edge a b c d es h = ground arith

-- a path of no edge or more
abbrev Leads : List Edge → Ulid → Ulid → Type 0
Leads es a b = (a ≡ b) ⊎ Reaches es a b

Leads-trans-edge : {es : List Edge} {a b c : Ulid} → Leads es a b → Linked es b c → Reaches es a c
Leads-trans-edge {es} {c = c} (inl e) l = edge (rw e l)
Leads-trans-edge (inr r) l = step r l

Reaches-trans : {es : List Edge} {a b c : Ulid} → Reaches es a b → Reaches es b c → Reaches es a c
Reaches-trans r (edge l) = step r l
Reaches-trans r (step s l) = step (Reaches-trans r s) l

-- A path over one more edge either avoids it or goes through it.
Reaches-insert_edge :
    (j d : Ulid) (es : List Edge) {a b : Ulid}
    → Reaches (insert_edge j d es) a b
    → Reaches es a b ⊎ (Leads es a j × Leads es d b)
Reaches-insert_edge j d es {a} (edge {b = b} l) = elim (Linked-insert_edge j d a b es l) [
  | inl old ↦ inl (edge old)
  | inr new ↦ inr (inl (sym new.0), inl new.1)
]
Reaches-insert_edge j d es {a} (step {b = b} {c = c} r l) = elim (Reaches-insert_edge j d es r) [
  | inl old ↦ elim (Linked-insert_edge j d b c es l) [
    | inl k ↦ inl (step old k)
    | inr new ↦ inr (inr (rw new.0 old), inl new.1)
  ]
  | inr through ↦ elim (Linked-insert_edge j d b c es l) [
    | inl k ↦ inr (through.0, inr (Leads-trans-edge through.1 k))
    | inr new ↦ inr (through.0, inl new.1)
  ]
]

cycle-needs-path :
    (j d : Ulid) (es : List Edge) → Acyclic es → (Leads es d j → ⊥) → Acyclic (insert_edge j d es)
cycle-needs-path j d es acyclic none_back a r = elim (Reaches-insert_edge j d es r) [
  | inl old ↦ acyclic a old
  | inr through ↦ none_back (join through.1 through.0)
]
  where
    join : Leads es d a → Leads es a j → Leads es d j
    join (inl e) q = rw e q
    join (inr p) (inl e) = inr (rw (← e) p)
    join (inr p) (inr q) = inr (Reaches-trans p q)

pub insert_edge-Acyclic :
    (j d : Ulid) (es : List Edge)
    → (j == d) ≡ false
    → reaches es d j ≡ false
    → Acyclic es
    → Acyclic (insert_edge j d es)
insert_edge-Acyclic j d es ne none_back acyclic = cycle-needs-path j d es acyclic λ back.
    elim back [ inl e ↦ ground (arith, e) | inr r ↦ ground (arith, (reaches_iff es d j).1 r) ]

add_dependency_cases :
    (job dependency : Ulid) (db : Db)
    → ((add_dependency job dependency db).1.dependencies ≡ db.dependencies)
      ⊎ (((add_dependency job dependency db).1.dependencies
            ≡ insert_edge job dependency db.dependencies)
          × ((job == dependency) ≡ false)
          × (reaches db.dependencies dependency job ≡ false))
unfolding add_dependency_tx add_dependency
add_dependency_cases job dependency db = ground arith

-- AddDependency keeps the graph free of cycles, whatever it answers: from a graph in which no job
-- waits for itself it leaves such a graph, for any two jobs and any table of jobs.
pub add_dependency-Acyclic :
    (job dependency : Ulid) (db : Db)
    → Acyclic db.dependencies
    → Acyclic (add_dependency job dependency db).1.dependencies
add_dependency-Acyclic job dependency db h = elim (add_dependency_cases job dependency db) [
  | inl same ↦ rw same h
  | inr new ↦ rw new.0 (insert_edge-Acyclic job dependency db.dependencies new.1 new.2 h)
]

-- AddDependency leaves the table of jobs alone.
pub jobs-add_dependency :
    (job dependency : Ulid) (db : Db) → (add_dependency job dependency db).1.jobs ≡ db.jobs
unfolding add_dependency_tx add_dependency
jobs-add_dependency job dependency db = ground arith
