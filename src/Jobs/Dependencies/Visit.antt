-- ===== src/Jobs/Dependencies/Visit.antt =====
-- One round of the recursive query: the queue, what has been produced, and their measure.
use doublangu.Prelude.{
  ℕ, ◌+◌, ◌≤◌, ◌<◌, ◌≡◌, refl, inl, inr, true, false, ◌||◌, not, List, [], ◌∷◌, ◌++◌, arith, ◌==◌,
  length, length-append, exists_where, count_where, All, Bool-cases,
}
use doublangu.Jobs.Types.{Ulid, Edge}
use doublangu.Jobs.Dependencies.{contains, edge_is, targets, visit}

pub contains-append :
    (xs ys : List Ulid) (a : Ulid) → contains (xs ++ ys) a ≡ (contains xs a || contains ys a)
contains-append [] ys a = refl
contains-append (x ∷ xs) ys a = ground (arith, contains-append xs ys a)

-- The query for one row finds exactly its edges.
pub contains-targets :
    (a b : Ulid) (es : List Edge) → contains (targets a es) b ≡ exists_where (edge_is a b) es
unfolding targets exists_where
contains-targets a b [] = refl
contains-targets a b (e ∷ es) = ground (arith, contains-targets a b es)

-- how many edges lead to a row that has not been produced
pub unseen : List Ulid → List Edge → ℕ
unseen seen es = count_where (λ e. not (contains seen e.dependency_job_id)) es

pub incoming : Ulid → List Edge → ℕ
incoming t es = count_where (λ e. e.dependency_job_id == t) es

pub unseen-cons :
    (t : Ulid) (seen : List Ulid) (es : List Edge)
    → contains seen t ≡ false
    → unseen (t ∷ seen) es + incoming t es ≡ unseen seen es
unfolding unseen incoming count_where
unseen-cons t seen [] h = refl
unseen-cons t seen (e ∷ es) h = ground (arith, unseen-cons t seen es h)

abbrev pub HasIncoming : List Edge → Ulid → Type 0
HasIncoming es t = 0 < incoming t es

pub incoming-cons-le : (t : Ulid) (e : Edge) (es : List Edge) → incoming t es ≤ incoming t (e ∷ es)
unfolding incoming count_where
incoming-cons-le t e es = ground arith

pub All-HasIncoming-cons :
    (e : Edge) (es : List Edge) (ts : List Ulid)
    → All (HasIncoming es) ts
    → All (HasIncoming (e ∷ es)) ts
All-HasIncoming-cons e es [] h = tt
All-HasIncoming-cons e es (t ∷ ts) h =
    (omega (arith, incoming-cons-le t e es, h.0), All-HasIncoming-cons e es ts h.1)

pub targets-HasIncoming : (a : Ulid) (es : List Edge) → All (HasIncoming es) (targets a es)
unfolding targets
targets-HasIncoming a [] = tt
targets-HasIncoming a (e ∷ es) = elim (Bool-cases (e.job_id == a)) [
  | inl y ↦ rw y (here, All-HasIncoming-cons e es (targets a es) (targets-HasIncoming a es))
  | inr n ↦ rw n (All-HasIncoming-cons e es (targets a es) (targets-HasIncoming a es))
]
  where
    here : HasIncoming (e ∷ es) e.dependency_job_id
    here = unfold incoming count_where in ground arith

pub visit-seen :
    (t : Ulid) (ts queue seen : List Ulid)
    → contains seen t ≡ true
    → visit (t ∷ ts) queue seen ≡ visit ts queue seen
unfolding visit
visit-seen t ts queue seen h = rw h

pub visit-unseen :
    (t : Ulid) (ts queue seen : List Ulid)
    → contains seen t ≡ false
    → visit (t ∷ ts) queue seen ≡ visit ts (queue ++ t ∷ []) (t ∷ seen)
unfolding visit
visit-unseen t ts queue seen h = rw h

pub visit-nil : (queue seen : List Ulid) → visit [] queue seen ≡ (queue, seen)
unfolding visit
visit-nil queue seen = refl

-- What the queue holds and what may still come never grows.
pub visit_measure :
    (es : List Edge) (ts queue seen : List Ulid)
    → All (HasIncoming es) ts
    → length (visit ts queue seen).0 + unseen (visit ts queue seen).1 es
      ≤ length queue + unseen seen es
visit_measure es [] queue seen h = rw visit-nil (omega arith)
visit_measure es (t ∷ ts) queue seen h = elim (Bool-cases (contains seen t)) [
  | inl y ↦ rw (visit-seen t ts queue seen y) (visit_measure es ts queue seen h.1)
  | inr n ↦ rw (visit-unseen t ts queue seen n) (
      omega (
        arith,
        visit_measure es ts (queue ++ t ∷ []) (t ∷ seen) h.1,
        unseen-cons t seen es n,
        length-append queue (t ∷ []),
        h.0,
      ))
]

-- Nothing that was seen is forgotten, every target is seen, and what is newly seen is queued.
pub visit-keeps :
    (a : Ulid) (ts queue seen : List Ulid)
    → contains seen a ≡ true
    → contains (visit ts queue seen).1 a ≡ true
visit-keeps a [] queue seen h = rw visit-nil h
visit-keeps a (t ∷ ts) queue seen h = elim (Bool-cases (contains seen t)) [
  | inl y ↦ rw (visit-seen t ts queue seen y) (visit-keeps a ts queue seen h)
  | inr n ↦
      rw (visit-unseen t ts queue seen n)
        (visit-keeps a ts (queue ++ t ∷ []) (t ∷ seen) (ground arith))
]

pub visit-covers :
    (a : Ulid) (ts queue seen : List Ulid)
    → contains ts a ≡ true
    → contains (visit ts queue seen).1 a ≡ true
visit-covers a [] queue seen h = cc
visit-covers a (t ∷ ts) queue seen h = elim (Bool-cases (contains seen t)) [
  | inl y ↦ rw (visit-seen t ts queue seen y) (elim (Bool-cases (t == a)) [
    | inl e ↦ visit-keeps a ts queue seen (ground arith)
    | inr e ↦ visit-covers a ts queue seen (ground arith)
  ])
  | inr n ↦ rw (visit-unseen t ts queue seen n) (elim (Bool-cases (t == a)) [
    | inl e ↦ visit-keeps a ts (queue ++ t ∷ []) (t ∷ seen) (ground arith)
    | inr e ↦ visit-covers a ts (queue ++ t ∷ []) (t ∷ seen) (ground arith)
  ])
]

pub visit-queue_keeps :
    (a : Ulid) (ts queue seen : List Ulid)
    → contains queue a ≡ true
    → contains (visit ts queue seen).0 a ≡ true
visit-queue_keeps a [] queue seen h = rw visit-nil h
visit-queue_keeps a (t ∷ ts) queue seen h = elim (Bool-cases (contains seen t)) [
  | inl y ↦ rw (visit-seen t ts queue seen y) (visit-queue_keeps a ts queue seen h)
  | inr n ↦ rw (visit-unseen t ts queue seen n) (
      visit-queue_keeps a ts (queue ++ t ∷ []) (t ∷ seen)
        (ground (arith, contains-append queue (t ∷ []) a)))
]

pub visit-new_queued :
    (a : Ulid) (ts queue seen : List Ulid)
    → contains (visit ts queue seen).1 a ≡ true
    → contains seen a ≡ false
    → contains (visit ts queue seen).0 a ≡ true
visit-new_queued a [] queue seen h n = absurd (cc (visit-nil queue seen))
visit-new_queued a (t ∷ ts) queue seen h n = elim (Bool-cases (contains seen t)) [
  | inl y ↦
      rw (visit-seen t ts queue seen y)
        (visit-new_queued a ts queue seen (rw (visit-seen t ts queue seen y) at h) n)
  | inr m ↦ rw (visit-unseen t ts queue seen m) (elim (Bool-cases (t == a)) [
    | inl e ↦
        visit-queue_keeps a ts (queue ++ t ∷ []) (t ∷ seen)
          (ground (arith, contains-append queue (t ∷ []) a))
    | inr e ↦
        visit-new_queued a ts (queue ++ t ∷ []) (t ∷ seen)
          (rw (visit-unseen t ts queue seen m) at h) (ground arith)
  ])
]

pub unseen_le_length : (seen : List Ulid) (es : List Edge) → unseen seen es ≤ length es
unfolding unseen count_where
unseen_le_length seen [] = omega arith
unseen_le_length seen (e ∷ es) = ground (arith, unseen_le_length seen es)
