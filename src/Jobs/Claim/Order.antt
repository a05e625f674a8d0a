-- ===== src/Jobs/Claim/Order.antt =====
-- The order of the claim query: rows are sorted, and the first that is accepted is a best one.
use doublangu.Prelude.{
  ◌≡◌, sym, subst, inl, inr, Bool, true, false, List, [], ◌∷◌, none, some, arith, All, All-mono,
  first, select, Bool-cases,
}
use doublangu.Jobs.Types.{Job}
use doublangu.Jobs.Claim.{precedes, insert_sorted, order_rows}

-- `b` does not stand before `a`
abbrev pub NotAfter : Job → Job → Type 0
NotAfter a b = precedes b a ≡ false

abbrev pub Sorted : List Job → Type 0
Sorted [] = Unit
Sorted (j ∷ js) = All (NotAfter j) js × Sorted js

precedes_asym : (a b : Job) → precedes a b ≡ true → precedes b a ≡ false
unfolding precedes
precedes_asym a b h = ground arith

NotAfter-trans : (a b c : Job) → NotAfter a b → NotAfter b c → NotAfter a c
unfolding precedes
NotAfter-trans a b c h k = ground arith

module _ {κ} (P : Job → Type κ) where
  insert_sorted-All : (x : Job) (js : List Job) → P x → All P js → All P (insert_sorted x js)
  unfolding insert_sorted
  insert_sorted-All x [] p h = (p, tt)
  insert_sorted-All x (j ∷ js) p h = elim (Bool-cases (precedes j x)) [
    | inl e ↦ rw e (h.0, insert_sorted-All x js p h.1)
    | inr e ↦ rw e (p, h)
  ]

  All-insert_sorted : (x : Job) (js : List Job) → All P (insert_sorted x js) → P x × All P js
  unfolding insert_sorted
  All-insert_sorted x [] h = h
  All-insert_sorted x (j ∷ js) h = elim (Bool-cases (precedes j x)) [
    | inl e ↦
        let k : All P (j ∷ insert_sorted x js) = rw e at h in
        let (p, rest) = All-insert_sorted x js k.1 in (p, (k.0, rest))
    | inr e ↦ let k : All P (x ∷ j ∷ js) = rw e at h in k
  ]

  pub order_rows-All : (js : List Job) → All P js → All P (order_rows js)
  unfolding order_rows
  order_rows-All [] h = tt
  order_rows-All (j ∷ js) h = insert_sorted-All j (order_rows js) h.0 (order_rows-All js h.1)

  pub All-order_rows : (js : List Job) → All P (order_rows js) → All P js
  unfolding order_rows
  All-order_rows [] h = tt
  All-order_rows (j ∷ js) h =
      let (p, rest) = All-insert_sorted j (order_rows js) h in (p, All-order_rows js rest)

insert_sorted-Sorted : (x : Job) (js : List Job) → Sorted js → Sorted (insert_sorted x js)
insert_sorted-Sorted x [] s = unfold insert_sorted in (tt, tt)
insert_sorted-Sorted x (j ∷ js) s = elim (Bool-cases (precedes j x)) [
  | inl e ↦
      subst Sorted (sym (insert_after x j js e)) (
        insert_sorted-All (NotAfter j) x js (precedes_asym j x e) s.0,
        insert_sorted-Sorted x js s.1,
      )
  | inr e ↦
      subst Sorted (sym (insert_here x j js e))
        ((e, All-mono (NotAfter j) (NotAfter x) (λ y k. NotAfter-trans x j y e k) js s.0), s)
]
  where
    insert_after :
        (x j : Job) (js : List Job)
        → precedes j x ≡ true
        → insert_sorted x (j ∷ js) ≡ j ∷ insert_sorted x js
    insert_after x j js e = unfold insert_sorted in rw e

    insert_here :
        (x j : Job) (js : List Job) → precedes j x ≡ false → insert_sorted x (j ∷ js) ≡ x ∷ j ∷ js
    insert_here x j js e = unfold insert_sorted in rw e

pub order_rows-Sorted : (js : List Job) → Sorted (order_rows js)
unfolding order_rows
order_rows-Sorted [] = tt
order_rows-Sorted (j ∷ js) = insert_sorted-Sorted j (order_rows js) (order_rows-Sorted js)

-- Of the accepted rows none stands before the first.
pub first-best :
    (p : Job → Bool) (js : List Job) {c : Job}
    → Sorted js
    → first p js ≡ some c
    → All (λ j. p j ≡ true → NotAfter c j) js
unfolding first
first-best p [] s h = tt
first-best p (j ∷ js) {c} s h = elim (Bool-cases (p j)) [
  | inl e ↦
      let same : j ≡ c = ground arith in
      subst (λ x. All (λ k. p k ≡ true → NotAfter x k) (j ∷ js)) same
        (
          (λ _. irrefl j),
          All-mono (NotAfter j) (λ k. p k ≡ true → NotAfter j k) (λ k n _. n) js s.0,
        )
  | inr e ↦ ((λ k. absurd (ground arith)), first-best p js {c = c} s.1 (ground arith))
]
  where
    irrefl : (j : Job) → NotAfter j j
    irrefl j = unfold precedes in ground arith

pub first-none : (p : Job → Bool) (js : List Job) → first p js ≡ none → All (λ j. p j ≡ false) js
unfolding first
first-none p [] h = tt
first-none p (j ∷ js) h = elim (Bool-cases (p j)) [
  | inl e ↦ absurd (ground arith)
  | inr e ↦ (e, first-none p js (ground arith))
]

pub select-All : (p : Job → Bool) (js : List Job) → All (λ j. p j ≡ true) (select p js)
unfolding select
select-All p [] = tt
select-All p (j ∷ js) = elim (Bool-cases (p j)) [
  | inl e ↦ rw e (e, select-All p js)
  | inr e ↦ rw e (select-All p js)
]

-- What holds of the selected rows holds of the rows that the query accepts.
pub All-of_select {κ} :
    (P : Job → Type κ) (p : Job → Bool) (js : List Job)
    → All P (select p js)
    → All (λ j. p j ≡ true → P j) js
unfolding select
All-of_select P p [] h = tt
All-of_select P p (j ∷ js) h = elim (Bool-cases (p j)) [
  | inl e ↦ let k : All P (j ∷ select p js) = rw e at h in ((λ _. k.0), All-of_select P p js k.1)
  | inr e ↦ ((λ t. absurd (ground arith)), All-of_select P p js (rw e at h))
]
