-- ===== src/Jobs/Dependencies/Accepted.antt =====
-- Which edges AddDependency accepts.
use doublangu.Prelude.{
  ℕ, ◌+◌, ◌≡◌, ◌↔◌, sym, subst, refl, inl, inr, Bool, true, false, List, [], ◌∷◌, Memᴰ, arith, ok,
  ◌==◌, ==_iff, if◌then◌else◌, exists_where, exists_where-Memᴰ, count_where, Bool-cases,
}
use doublangu.Jobs.Types.{Ulid, is_zero, Job, Edge, Db}
use doublangu.Jobs.Enqueue.{has_id}
use doublangu.Jobs.Dependencies.{id_among, reaches, insert_edge, add_dependency_tx, add_dependency}
use doublangu.Jobs.Dependencies.Graph.{Linked, Reaches, edge, step, Acyclic}
use doublangu.Jobs.Dependencies.Search.{reaches_iff}
use doublangu.Jobs.Dependencies.Acyclic.{insert_edge-Acyclic}
use doublangu.Jobs.Invariant.Rules.{UniqueIds}

-- A row of the table has this id.
abbrev pub HasRow : Ulid → List Job → Type 0
HasRow id jobs = (j : Job) × Memᴰ j jobs × (j.id ≡ id)

abbrev bit : Bool → ℕ
bit b = if b then 1 else 0

count_among :
    (a b : Ulid) (jobs : List Job)
    → UniqueIds jobs
    → (a == b) ≡ false
    → count_where (id_among a b) jobs
      ≡ bit (exists_where (has_id a) jobs) + bit (exists_where (has_id b) jobs)
unfolding count_where exists_where
count_among a b [] u n = omega arith
count_among a b (j ∷ js) u n = elim (Bool-cases (j.id == a)) [
  | inl e ↦
      let later = subst (λ k. exists_where (has_id k) js ≡ false) ((==_iff j.id a).0 e) u.0 in
      ground (arith, e, later, (==_iff j.id a).0 e, count_among a b js u.1 n)
  | inr e ↦ elim (Bool-cases (j.id == b)) [
    | inl f ↦
        let later = subst (λ k. exists_where (has_id k) js ≡ false) ((==_iff j.id b).0 f) u.0 in
        ground (arith, e, f, later, count_among a b js u.1 n)
    | inr f ↦ ground (arith, e, f, count_among a b js u.1 n)
  ]
]

HasRow-exists_where :
    (id : Ulid) {j : Job} {jobs : List Job}
    → Memᴰ j jobs
    → j.id ≡ id
    → exists_where (has_id id) jobs ≡ true
unfolding exists_where
HasRow-exists_where id (Memᴰ.head {x = k} same) e =
    let here = (==_iff k.id id).1 (subst (λ x. x.id ≡ id) same e) in ground (arith, here)
HasRow-exists_where id (Memᴰ.tail m) e =
    let later = HasRow-exists_where id m e in ground (arith, later)

exists_where-HasRow :
    (id : Ulid) (jobs : List Job) → exists_where (has_id id) jobs ≡ true → HasRow id jobs
exists_where-HasRow id jobs h =
    let (j, m, e) = exists_where-Memᴰ (has_id id) jobs h in (j, m, (==_iff j.id id).0 e)

Linked-keeps :
    (a b : Ulid) (es : List Edge) (c d : Ulid) → Linked es c d → Linked (insert_edge a b es) c d
unfolding insert_edge exists_where
Linked-keeps a b es c d l = ground arith

Linked-new : (a b : Ulid) (es : List Edge) → Linked (insert_edge a b es) a b
unfolding insert_edge exists_where
Linked-new a b es = ground (arith, (==_iff a a).1 refl, (==_iff b b).1 refl)

Reaches-keeps :
    (a b : Ulid) (es : List Edge) {c d : Ulid} → Reaches es c d → Reaches (insert_edge a b es) c d
Reaches-keeps a b es (edge l) = edge (Linked-keeps a b es _ _ l)
Reaches-keeps a b es (step r l) = step (Reaches-keeps a b es r) (Linked-keeps a b es _ _ l)

Acyclic-no_path_back :
    (a b : Ulid) (es : List Edge) → Acyclic (insert_edge a b es) → reaches es b a ≡ false
Acyclic-no_path_back a b es h = elim (Bool-cases (reaches es b a)) [
  | inl y ↦
      absurd (h b (step (Reaches-keeps a b es ((reaches_iff es b a).0 y)) (Linked-new a b es)))
  | inr n ↦ n
]

Acyclic-differ : (a b : Ulid) (es : List Edge) → Acyclic (insert_edge a b es) → (a == b) ≡ false
Acyclic-differ a b es h = elim (Bool-cases (a == b)) [
  | inl y ↦ absurd (
      h a
        (edge (subst (Linked (insert_edge a b es) a) (sym ((==_iff a b).0 y)) (Linked-new a b es))))
  | inr n ↦ n
]

add_dependency-ok :
    (job dependency : Ulid) (db : Db)
    → ((add_dependency job dependency db).0 ≡ ok tt) ↔ (
        (is_zero job ≡ false)
        × (is_zero dependency ≡ false)
        × ((job == dependency) ≡ false)
        × ((count_where (id_among job dependency) db.jobs == 2) ≡ true)
        × (reaches db.dependencies dependency job ≡ false))
unfolding add_dependency_tx add_dependency
add_dependency-ok job dependency db = (λ h. ground arith, λ h. ground arith)

both_bits : (p q : Bool) → (bit p + bit q == 2) ≡ true → (p ≡ true) × (q ≡ true)
both_bits p q h = ground arith

-- In tables with unique ids and no cycle AddDependency accepts every edge that it can: its answer is
-- a success exactly when both jobs are stored, under ids that are not zero, and the graph with the
-- edge has no cycle.
pub add_dependency-Acyclic_iff :
    (job dependency : Ulid) (db : Db)
    → UniqueIds db.jobs
    → Acyclic db.dependencies
    → ((add_dependency job dependency db).0 ≡ ok tt) ↔ (
        (is_zero job ≡ false)
        × (is_zero dependency ≡ false)
        × HasRow job db.jobs
        × HasRow dependency db.jobs
        × Acyclic (insert_edge job dependency db.dependencies))
add_dependency-Acyclic_iff job dependency db u acyclic = (
  λ h.
      let (y, z, n, two, back) = (add_dependency-ok job dependency db).0 h in
      let (p, q) = both_bits _ _ (rw (count_among job dependency db.jobs u n) at two) in
      (
        y,
        z,
        exists_where-HasRow job db.jobs p,
        exists_where-HasRow dependency db.jobs q,
        insert_edge-Acyclic job dependency db.dependencies n back acyclic,
      ),
  λ (y, z, (j, m, e), (k, o, f), free).
      let n = Acyclic-differ job dependency db.dependencies free in
      (add_dependency-ok job dependency db).1 (
        y,
        z,
        n,
        rw
            (
              count_among job dependency db.jobs u n,
              HasRow-exists_where job m e,
              HasRow-exists_where dependency o f,
            )
            refl,
        Acyclic-no_path_back job dependency db.dependencies free,
      ),
)
