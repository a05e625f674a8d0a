-- ===== src/Jobs/Invariant/Rows.antt =====
-- Rows by their id: the primary key, and the row that an id finds before and after an UPDATE.
use doublangu.Prelude.{
  ◌≡◌, refl, subst, inl, inr, Bool, true, false, List, [], ◌∷◌, some, arith, ◌==◌, ==_iff,
  if◌then◌else◌, All, first, exists_where, update_where, Bool-cases,
}
use doublangu.Jobs.Types.{Ulid, Job}
use doublangu.Jobs.Enqueue.{has_id, find_id}

-- the primary key
abbrev pub UniqueIds : List Job → Type 0
UniqueIds [] = Unit
UniqueIds (j ∷ js) = (exists_where (has_id j.id) js ≡ false) × UniqueIds js

abbrev pub KeepsId : (Job → Job) → Type 0
KeepsId f = (j : Job) → (f j).id ≡ j.id

exists_where-update_where :
    (id : Ulid) (p : Job → Bool) (f : Job → Job)
    → KeepsId f
    → (jobs : List Job)
    → exists_where (has_id id) (update_where p f jobs) ≡ exists_where (has_id id) jobs
unfolding exists_where update_where
exists_where-update_where id p f same [] = refl
exists_where-update_where id p f same (j ∷ js) =
    ground (arith, same j, exists_where-update_where id p f same js)

pub UniqueIds-update_where :
    (p : Job → Bool) (f : Job → Job)
    → KeepsId f
    → (jobs : List Job) → UniqueIds jobs
    → UniqueIds (update_where p f jobs)
unfolding update_where
UniqueIds-update_where p f same [] u = tt
UniqueIds-update_where p f same (j ∷ js) u = (
  rw (exists_where-update_where (if p j then f j else j).id p f same js)
      (elim (Bool-cases (p j)) [ inl e ↦ rw (e, same j) u.0 | inr e ↦ rw e u.0 ]),
  UniqueIds-update_where p f same js u.1,
)

-- With unique ids the row that was found is the only one of its id.
abbrev pub IsOnly : Ulid → Job → Job → Type 0
IsOnly id found j = (j.id == id) ≡ true → j ≡ found

pub none_with_id :
    (id : Ulid) (found : Job) (jobs : List Job)
    → exists_where (has_id id) jobs ≡ false
    → All (IsOnly id found) jobs
unfolding exists_where
none_with_id id found [] h = tt
none_with_id id found (j ∷ js) h =
    (λ e. absurd (ground arith), none_with_id id found js (ground arith))

pub none_of_id :
    (id : Ulid) (jobs : List Job)
    → exists_where (has_id id) jobs ≡ false
    → All (λ j. (j.id == id) ≡ false) jobs
unfolding exists_where
none_of_id id [] h = tt
none_of_id id (j ∷ js) h = (ground arith, none_of_id id js (ground arith))

pub find_id-IsOnly :
    (id : Ulid) (jobs : List Job) {found : Job}
    → UniqueIds jobs
    → find_id id jobs ≡ some found
    → All (IsOnly id found) jobs
unfolding find_id
find_id-IsOnly id [] u h = tt
find_id-IsOnly id (j ∷ js) {found} u h = elim (Bool-cases (j.id == id)) [
  | inl e ↦ (λ _. ground arith, none_with_id id found js (rw ((==_iff j.id id).0 e) at u.0))
  | inr e ↦ (λ k. absurd (ground arith), find_id-IsOnly id js u.1 (ground arith))
]

pub find_id-id :
    (id : Ulid) (jobs : List Job) {found : Job} → find_id id jobs ≡ some found → found.id ≡ id
unfolding find_id
find_id-id id [] h = ground arith
find_id-id id (j ∷ js) {found} h = elim (Bool-cases (j.id == id)) [
  | inl e ↦ ground arith
  | inr e ↦ find_id-id id js {found = found} (ground arith)
]

-- The row of an id after an UPDATE.
pub find_id-update_where :
    (id : Ulid) (p : Job → Bool) (f : Job → Job)
    → KeepsId f
    → (jobs : List Job) (c : Job) → find_id id jobs ≡ some c
    → find_id id (update_where p f jobs) ≡ some (if p c then f c else c)
unfolding find_id update_where
find_id-update_where id p f same [] c h = ground arith
find_id-update_where id p f same (j ∷ js) c h = elim (Bool-cases (j.id == id)) [
  | inl e ↦
      let here : j ≡ c = ground arith in
      subst
        (λ x.
          first (has_id id) ((if p j then f j else j) ∷ update_where p f js)
          ≡ some (if p x then f x else x))
        here (ground (arith, same j))
  | inr e ↦ ground (arith, same j, find_id-update_where id p f same js c)
]

pub find_id-All {κ} :
    (P : Job → Type κ) (id : Ulid) (jobs : List Job) {found : Job}
    → All P jobs
    → find_id id jobs ≡ some found
    → P found
unfolding find_id
find_id-All P id [] h e = absurd (ground arith)
find_id-All P id (j ∷ js) {found} h e = elim (Bool-cases (j.id == id)) [
  | inl y ↦ let here : j ≡ found = ground arith in subst P here h.0
  | inr n ↦ find_id-All P id js {found = found} h.1 (ground arith)
]
