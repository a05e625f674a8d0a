-- ===== src/Jobs/Dependencies.antt =====
-- AddDependency: the graph of `job_dependency` and the recursive query that guards it.
pub mod Graph
mod Visit
pub mod Search
pub mod Acyclic
pub mod Accepted
use doublangu.Prelude.{
  ℕ, zero, suc, ◌+◌, Bool, true, false, ◌&&◌, ◌||◌, not, List, [], ◌∷◌, ◌++◌, Option, none, some,
  Result, ok, err, ◌==◌, if◌then◌else◌, length, exists_where, count_where,
}
use doublangu.Jobs.Types.{
  Ulid, is_zero, Job, Edge, Db, JobError, validation, not_found, conflict, Tx, with_transaction,
}

abbrev pub contains : List Ulid → Ulid → Bool
contains [] a = false
contains (x ∷ xs) a = x == a || contains xs a

abbrev pub edge_is : Ulid → Ulid → Edge → Bool
edge_is a b e = e.job_id == a && e.dependency_job_id == b

-- SELECT dependency_job_id FROM job_dependency WHERE job_id = a
unfoldable pub targets : Ulid → List Edge → List Ulid
targets a [] = []
targets a (e ∷ es) = if e.job_id == a then e.dependency_job_id ∷ targets a es else targets a es

-- The queue of a recursive query with UNION: a row that was produced before is dropped.
unfoldable pub visit : List Ulid → List Ulid → List Ulid → List Ulid × List Ulid
visit [] queue seen = (queue, seen)
visit (t ∷ ts) queue seen =
    visit ts (if contains seen t then queue else queue ++ t ∷ [])
      (if contains seen t then seen else t ∷ seen)

-- Rows are taken from the queue until it is empty.
unfoldable pub closure : ℕ → List Edge → List Ulid → List Ulid → List Ulid
closure zero es queue seen = seen
closure (suc fuel) es [] seen = seen
closure (suc fuel) es (x ∷ queue) seen =
    closure fuel es (visit (targets x es) queue seen).0 (visit (targets x es) queue seen).1

-- WITH RECURSIVE ancestors(id) AS (...); one round for each edge, and one more, is enough.
unfoldable pub ancestors : List Edge → Ulid → List Ulid
ancestors es start =
    closure (suc (length es)) es (visit (targets start es) [] []).0
      (visit (targets start es) [] []).1

unfoldable pub reaches : List Edge → Ulid → Ulid → Bool
reaches es start goal = contains (ancestors es start) goal

-- SELECT COUNT(*) FROM job WHERE id IN (?, ?)
abbrev pub id_among : Ulid → Ulid → Job → Bool
id_among a b j = j.id == a || j.id == b

-- INSERT OR IGNORE
unfoldable pub insert_edge : Ulid → Ulid → List Edge → List Edge
insert_edge a b es =
    if exists_where (edge_is a b) es then es else record { job_id = a; dependency_job_id = b } ∷ es

unfoldable pub add_dependency_tx : Ulid → Ulid → Tx (Unit {0})
unfolding reaches insert_edge count_where exists_where
add_dependency_tx job dependency db =
    if not (count_where (id_among job dependency) db.jobs == 2)
    then err not_found
    else if reaches db.dependencies dependency job
    then err conflict
    else ok (tt, record db { dependencies = insert_edge job dependency db.dependencies })

unfoldable pub add_dependency : Ulid → Ulid → Db → Result JobError (Unit {0}) × Db
unfolding add_dependency_tx
add_dependency job dependency db =
    if is_zero job || is_zero dependency || job == dependency
    then (err validation, db)
    else with_transaction (add_dependency_tx job dependency) db
