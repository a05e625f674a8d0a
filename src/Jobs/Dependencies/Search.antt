-- ===== src/Jobs/Dependencies/Search.antt =====
-- The recursive query of AddDependency against the relation that it computes.
use doublangu.Prelude.{
  ℕ, zero, suc, ◌+◌, ◌<◌, ◌↔◌, ◌≡◌, refl, ◌⊎◌, inl, inr, true, List, [], ◌∷◌, ◌++◌, arith, ◌==◌,
  ==_iff, length, Bool-cases,
}
use doublangu.Jobs.Types.{Ulid, Edge}
use doublangu.Jobs.Dependencies.{contains, targets, visit, closure, ancestors, reaches}
use doublangu.Jobs.Dependencies.Graph.{Linked, Reaches, edge, step}
use doublangu.Jobs.Dependencies.Visit.{
  contains-append, contains-targets, unseen, targets-HasIncoming, visit-seen, visit-unseen,
  visit-nil, visit_measure, visit-keeps, visit-covers, visit-queue_keeps, visit-new_queued,
  unseen_le_length,
}

-- Whatever is seen is queued or has had its targets seen.
abbrev IsProcessed : List Edge → List Ulid → Ulid → Type 0
IsProcessed es seen x = (b : Ulid) → Linked es x b → contains seen b ≡ true

abbrev Settled : List Edge → List Ulid → List Ulid → Type 0
Settled es queue seen =
    (x : Ulid) → contains seen x ≡ true → (contains queue x ≡ true) ⊎ IsProcessed es seen x

module _ (es : List Edge) where
  visit-Settled :
      (x : Ulid) (queue seen : List Ulid)
      → Settled es (x ∷ queue) seen
      → Settled es (visit (targets x es) queue seen).0 (visit (targets x es) queue seen).1
  visit-Settled x queue seen s y h = elim (Bool-cases (contains seen y)) [
    | inr n ↦ inl (visit-new_queued y (targets x es) queue seen h n)
    | inl o ↦ elim (s y o) [
      | inr done ↦ inr (λ b l. visit-keeps b (targets x es) queue seen (done b l))
      | inl q ↦ elim (Bool-cases (x == y)) [
        | inr e ↦ inl (visit-queue_keeps y (targets x es) queue seen (ground arith))
        | inl e ↦ inr (λ b l.
            visit-covers b (targets x es) queue seen
              (ground (arith, contains-targets x b es, (==_iff x y).0 e)))
      ]
    ]
  ]

  closure-keeps :
      (a : Ulid) (fuel : ℕ) (queue seen : List Ulid)
      → contains seen a ≡ true
      → contains (closure fuel es queue seen) a ≡ true
  unfolding closure
  closure-keeps a zero queue seen h = h
  closure-keeps a (suc fuel) [] seen h = h
  closure-keeps a (suc fuel) (x ∷ queue) seen h =
      closure-keeps a fuel (visit (targets x es) queue seen).0 (visit (targets x es) queue seen).1
        (visit-keeps a (targets x es) queue seen h)

  -- With fuel for the measure the queue is empty at the end.
  closure-IsProcessed :
      (fuel : ℕ) (queue seen : List Ulid)
      → length queue + unseen seen es < fuel
      → Settled es queue seen
      → (x : Ulid) → contains (closure fuel es queue seen) x ≡ true
      → IsProcessed es (closure fuel es queue seen) x
  unfolding closure
  closure-IsProcessed zero queue seen m s x h = absurd (omega arith)
  closure-IsProcessed (suc fuel) [] seen m s x h = elim (s x h) [ inl q ↦ cc | inr p ↦ p ]
  closure-IsProcessed (suc fuel) (y ∷ queue) seen m s x h =
      closure-IsProcessed fuel (visit (targets y es) queue seen).0
        (visit (targets y es) queue seen).1
        (omega (arith, visit_measure es (targets y es) queue seen (targets-HasIncoming y es)))
        (visit-Settled y queue seen s) x h

module _ (es : List Edge) (start : Ulid) where
  start-ancestors :
      (a : Ulid) → contains (targets start es) a ≡ true → contains (ancestors es start) a ≡ true
  unfolding ancestors
  start-ancestors a h =
      closure-keeps es a (suc (length es)) (visit (targets start es) [] []).0
        (visit (targets start es) [] []).1 (visit-covers a (targets start es) [] [] h)

  -- Every ancestor has all its dependencies among the ancestors.
  ancestors-IsProcessed :
      (x : Ulid) → contains (ancestors es start) x ≡ true → IsProcessed es (ancestors es start) x
  unfolding ancestors
  ancestors-IsProcessed x h =
      closure-IsProcessed es (suc (length es)) (visit (targets start es) [] []).0
        (visit (targets start es) [] []).1
        (omega (
          arith,
          visit_measure es (targets start es) [] [] (targets-HasIncoming start es),
          unseen_le_length [] es,
        ))
        (λ y k. inl (visit-new_queued y (targets start es) [] [] k refl)) x h

  -- The query finds every row at the end of a path.
  reaches_complete : {b : Ulid} → Reaches es start b → reaches es start b ≡ true
  unfolding reaches
  reaches_complete {b} (edge l) = start-ancestors b (ground (arith, contains-targets start b es))
  reaches_complete {b} (step {b = x} r l) = ancestors-IsProcessed x (reaches_complete r) b l

  abbrev AllReached : List Ulid → Type 0
  AllReached xs = (a : Ulid) → contains xs a ≡ true → Reaches es start a

  visit-AllReached :
      (ts queue seen : List Ulid)
      → AllReached ts
      → AllReached queue
      → AllReached seen
      → AllReached (visit ts queue seen).0 × AllReached (visit ts queue seen).1
  visit-AllReached [] queue seen ht hq hs = rw visit-nil (hq, hs)
  visit-AllReached (t ∷ ts) queue seen ht hq hs = elim (Bool-cases (contains seen t)) [
    | inl y ↦
        rw (visit-seen t ts queue seen y)
          (visit-AllReached ts queue seen (λ a k. ht a (ground arith)) hq hs)
    | inr n ↦ rw (visit-unseen t ts queue seen n) (
        visit-AllReached ts (queue ++ t ∷ []) (t ∷ seen) (λ a k. ht a (ground arith))
          (λ a k. elim (Bool-cases (contains queue a)) [
            | inl q ↦ hq a q
            | inr q ↦ ht a (ground (arith, contains-append queue (t ∷ []) a))
          ])
          (λ a k. elim (Bool-cases (t == a)) [
            | inl e ↦ ht a (ground arith)
            | inr e ↦ hs a (ground arith)
          ]))
  ]

  closure-AllReached :
      (fuel : ℕ) (queue seen : List Ulid)
      → AllReached queue
      → AllReached seen
      → AllReached (closure fuel es queue seen)
  unfolding closure
  closure-AllReached zero queue seen hq hs = hs
  closure-AllReached (suc fuel) [] seen hq hs = hs
  closure-AllReached (suc fuel) (x ∷ queue) seen hq hs =
      let next =
        visit-AllReached (targets x es) queue seen
          (λ a k. step (hq x (ground arith)) (ground (arith, contains-targets x a es)))
          (λ a k. hq a (ground arith)) hs in
      closure-AllReached fuel (visit (targets x es) queue seen).0
        (visit (targets x es) queue seen).1 next.0 next.1

  reaches_sound : {b : Ulid} → reaches es start b ≡ true → Reaches es start b
  unfolding reaches ancestors
  reaches_sound {b} h =
      let first =
        visit-AllReached (targets start es) [] []
          (λ a k. edge (ground (arith, contains-targets start a es))) (λ a k. cc) (λ a k. cc) in
      closure-AllReached (suc (length es)) (visit (targets start es) [] []).0
        (visit (targets start es) [] []).1 first.0 first.1 b h

-- The recursive query of AddDependency decides whether a path of dependencies leads from one job
-- to another, in either direction, and its rounds never run out.
pub reaches_iff : (es : List Edge) (a b : Ulid) → (reaches es a b ≡ true) ↔ Reaches es a b
reaches_iff es a b = (reaches_sound es a, reaches_complete es a)
