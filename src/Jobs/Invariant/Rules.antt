-- ===== src/Jobs/Invariant/Rules.antt =====
-- The invariant of the two tables, and the rules for UPDATE statements that keep it.
use doublangu.Prelude.{
  ◌≡◌, Bool, true, List, [], ◌∷◌, All, All-both, All-update_where, update_where,
}
use doublangu.Jobs.Types.{Job, Db}
use doublangu.Jobs.Dependencies.Graph.{Acyclic}
use doublangu.Jobs.Invariant.{IsWf, Moves}
pub use doublangu.Jobs.Invariant.Rows.{
  UniqueIds, KeepsId, UniqueIds-update_where, IsOnly, none_with_id, none_of_id, find_id-IsOnly,
  find_id-id, find_id-update_where, find_id-All,
}
pub use doublangu.Jobs.Invariant.History.{
  Evolves, Evolves-refl, Evolved-trans, Evolves-update_where, Evolves-append, find_id-Evolves,
}
pub use doublangu.Jobs.Invariant.Bodies.{
  Ensures, Ensures-ok, Ensures-err, commit-keeps, Ensures-if, Ensures-bind, Ensures-then,
  Ensures-guard, refuse-keeps, transaction-keeps,
}

-- What holds of the tables `db` when the tables were `origin` before.
pub record Inv (origin db : Db) : Type 0 where
  pub rows : All IsWf db.jobs
  pub unique : UniqueIds db.jobs
  pub acyclic : Acyclic db.dependencies
  pub history : Evolves origin.jobs db.jobs

-- The same tables, seen from now on.
pub Inv-restart : {origin db : Db} → Inv origin db → Inv db db
Inv-restart {db = db} h = record {
  rows = h.rows;
  unique = h.unique;
  acyclic = h.acyclic;
  history = Evolves-refl db.jobs;
}

-- A SET list under a condition keeps the invariant if each row allows it.
module _ {origin : Db} (Q : Job → Type 0) (p : Job → Bool) (f : Job → Job) (same : KeepsId f) where
  pub update-Inv_with :
      (db : Db)
      → ((j : Job) → p j ≡ true → IsWf j → Q j → Moves j (f j))
      → All Q db.jobs
      → Inv origin db
      → Inv origin (record db { jobs = update_where p f db.jobs })
  update-Inv_with db keep known h =
      let both = All-both IsWf Q db.jobs h.rows known in
      record {
        rows =
            All-update_where (λ j. IsWf j × Q j) IsWf p f (λ j e w. (keep j e w.0 w.1).wf)
              (λ j e w. w.0) db.jobs both;
        unique = UniqueIds-update_where p f same db.jobs h.unique;
        acyclic = h.acyclic;
        history =
            Evolves-update_where (λ j. IsWf j × Q j) p f (λ j e w. (keep j e w.0 w.1).evolved)
              origin.jobs db.jobs both h.history;
      }

All-Unit : (jobs : List Job) → All (λ j. Unit {0}) jobs
All-Unit [] = tt
All-Unit (j ∷ js) = (tt, All-Unit js)

pub update-Inv :
    {origin : Db} (p : Job → Bool) (f : Job → Job)
    → KeepsId f
    → (db : Db) → ((j : Job) → p j ≡ true → IsWf j → Moves j (f j))
    → Inv origin db
    → Inv origin (record db { jobs = update_where p f db.jobs })
update-Inv p f same db keep h =
    update-Inv_with (λ j. Unit {0}) p f same db (λ j e w _. keep j e w) (All-Unit db.jobs) h
