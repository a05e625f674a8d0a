-- ===== src/Jobs/Dependencies/Graph.antt =====
-- The dependency graph that `job_dependency` holds, as a relation.
use doublangu.Prelude.{◌≡◌, true, List, exists_where}
use doublangu.Jobs.Types.{Ulid, Edge}
use doublangu.Jobs.Dependencies.{edge_is}

-- An edge of the table.
abbrev pub Linked : List Edge → Ulid → Ulid → Type 0
Linked es a b = exists_where (edge_is a b) es ≡ true

-- A path of one or more edges.
pub data Reaches (es : List Edge) (a : Ulid) : Ulid → Type 0 where
  edge : {b : Ulid} → Linked es a b → Reaches es a b
  step : {b c : Ulid} → Reaches es a b → Linked es b c → Reaches es a c

-- No job waits for itself.
abbrev pub Acyclic : List Edge → Type 0
Acyclic es = (a : Ulid) → Reaches es a a → ⊥
