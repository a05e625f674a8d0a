-- ===== src/Jobs/Enqueue/Newest.antt =====
-- Which job GetActiveOwnerJobTx returns.
use doublangu.Prelude.{
  String, ◌≡◌, subst, inl, inr, Bool, true, false, ◌||◌, List, [], ◌∷◌, Option, none, some, arith,
  ok, is_blank, All, All-mono, select, Bool-cases, Option-cases,
}
use doublangu.Jobs.Types.{Job, Db}
use doublangu.Jobs.Enqueue.{is_newer, newest, is_active_owner_job, get_active_owner_job_tx, found}
use doublangu.Jobs.Claim.Order.{select-All, All-of_select}

-- a row of the selection of which none of the selection is newer
pub record IsNewest (matches : Job → Bool) (jobs : List Job) (j : Job) : Type 0 where
  pub selected : matches j ≡ true
  pub newest_of : All (λ k. matches k ≡ true → is_newer k j ≡ false) jobs

older_than_newer : (a k x : Job) → is_newer a k ≡ false → is_newer x k ≡ true → is_newer a x ≡ false
older_than_newer a k x h y = ground arith

not_newer_self : (x : Job) → is_newer x x ≡ false
not_newer_self x = ground arith

nothing_newest : (Q : Job → Type 0) (js : List Job) → newest js ≡ none → All Q js
unfolding newest
nothing_newest Q [] e = tt
nothing_newest Q (x ∷ xs) e = elim (Option-cases (newest xs)) [
  | inl n ↦ absurd (ground (arith, n))
  | inr (k, n) ↦ absurd (ground (arith, n))
]

newest_cases :
    (P : Job → Type 0) (js : List Job) (j : Job)
    → newest js ≡ some j
    → All P js
    → P j × All (λ k. is_newer k j ≡ false) js
unfolding newest
newest_cases P [] j e h = absurd (ground arith)
newest_cases P (x ∷ xs) j e h = elim (Option-cases (newest xs)) [
  | inl n ↦
      let same : x ≡ j = ground (arith, n) in
      subst (λ y. P y × ((is_newer x y ≡ false) × All (λ k. is_newer k y ≡ false) xs)) same
        (h.0, (not_newer_self x, nothing_newest (λ k. is_newer k x ≡ false) xs n))
  | inr (k, n) ↦
      let (pk, least) = newest_cases P xs k n h.1 in
      elim (Bool-cases (is_newer x k)) [
        | inl y ↦
            let same : x ≡ j = ground (arith, n, y) in
            subst (λ y. P y × ((is_newer x y ≡ false) × All (λ k. is_newer k y ≡ false) xs)) same
              (
                h.0,
                (
                  not_newer_self x,
                  All-mono (λ a. is_newer a k ≡ false) (λ a. is_newer a x ≡ false)
                      (λ a l. older_than_newer a k x l y) xs least,
                ),
              )
        | inr y ↦
            let same : k ≡ j = ground (arith, n, y) in
            subst (λ z. P z × ((is_newer x z ≡ false) × All (λ k. is_newer k z ≡ false) xs)) same
              (pk, (y, least))
      ]
]

newest_selected :
    (matches : Job → Bool) (jobs : List Job) (j : Job)
    → newest (select matches jobs) ≡ some j
    → IsNewest matches jobs j
newest_selected matches jobs j e =
    let (selected, least) =
      newest_cases (λ k. matches k ≡ true) (select matches jobs) j e (select-All matches jobs) in
    record {
      selected = selected;
      newest_of = All-of_select (λ k. is_newer k j ≡ false) matches jobs least;
    }

found-some : (o : Option Job) (j : Job) → found o ≡ ok j → o ≡ some j
found-some none j e = absurd (ground arith)
found-some (some k) j e = ground arith

-- GetActiveOwnerJobTx returns a queued or active job of the owner and of the type, and no such job
-- in the table was created later, or at the same time with a greater id.
pub get_active_owner_job_tx-IsNewest :
    (owner_type owner_id job_type : String) (db : Db) (j : Job)
    → get_active_owner_job_tx owner_type owner_id job_type db ≡ ok j
    → IsNewest (is_active_owner_job owner_type owner_id job_type) db.jobs j
unfolding get_active_owner_job_tx
get_active_owner_job_tx-IsNewest owner_type owner_id job_type db j e =
    elim (Bool-cases (is_blank owner_type || is_blank owner_id || is_blank job_type)) [
      | inl b ↦ absurd (ground (arith, b))
      | inr b ↦ newest_selected (is_active_owner_job owner_type owner_id job_type) db.jobs j (
          found-some (newest (select (is_active_owner_job owner_type owner_id job_type) db.jobs)) j
            (ground (arith, b)))
    ]
