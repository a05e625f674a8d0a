-- ===== src/Jobs/Invariant/History.antt =====
-- The history of a table: its rows now against its rows before.
use doublangu.Prelude.{
  ◌≡◌, refl, sym, subst, ap, ◌∙◌, inl, inr, Bool, true, List, [], ◌∷◌, ◌++◌, some, arith, ◌==◌,
  if◌then◌else◌, All, update_where, Bool-cases,
}
use doublangu.Jobs.Types.{Ulid, Job}
use doublangu.Jobs.Enqueue.{find_id}
use doublangu.Jobs.Invariant.{is_terminal, Evolved}

-- The rows of a table after some operations against the rows before: in the same order, none is
-- gone, and new ones stand at the end.
abbrev pub Evolves : List Job → List Job → Type 0
Evolves [] js = Unit
Evolves (o ∷ os) [] = ⊥
Evolves (o ∷ os) (j ∷ js) = Evolved o j × Evolves os js

Evolved-refl : (j : Job) → Evolved j j
Evolved-refl j = record {
  same_id = refl;
  same_key = refl;
  same_payload = refl;
  same_limit = refl;
  attempts_grow = omega arith;
  frozen = λ _. refl;
}

pub Evolves-refl : (js : List Job) → Evolves js js
Evolves-refl [] = tt
Evolves-refl (j ∷ js) = (Evolved-refl j, Evolves-refl js)

pub Evolved-trans : {a b c : Job} → Evolved a b → Evolved b c → Evolved a c
Evolved-trans {a} {b} {c} h k = record {
  same_id = k.same_id ∙ h.same_id;
  same_key = k.same_key ∙ h.same_key;
  same_payload = k.same_payload ∙ h.same_payload;
  same_limit = k.same_limit ∙ h.same_limit;
  attempts_grow = omega (arith, h.attempts_grow, k.attempts_grow);
  frozen =
      λ t. let e = h.frozen t in k.frozen (subst (λ x. is_terminal x.state ≡ true) (sym e) t) ∙ e;
}

pub Evolves-update_where :
    (Q : Job → Type 0) (p : Job → Bool) (f : Job → Job)
    → ((j : Job) → p j ≡ true → Q j → Evolved j (f j))
    → (os js : List Job) → All Q js
    → Evolves os js
    → Evolves os (update_where p f js)
unfolding update_where
Evolves-update_where Q p f keep [] js q h = tt
Evolves-update_where Q p f keep (o ∷ os) [] q h = h
Evolves-update_where Q p f keep (o ∷ os) (j ∷ js) q h = elim (Bool-cases (p j)) [
  | inl e ↦ (
    subst (Evolved o) (ap (λ b. if b then f j else j) (sym e)) (Evolved-trans h.0 (keep j e q.0)),
    Evolves-update_where Q p f keep os js q.1 h.1,
  )
  | inr e ↦ (
    subst (Evolved o) (ap (λ b. if b then f j else j) (sym e)) h.0,
    Evolves-update_where Q p f keep os js q.1 h.1,
  )
]

pub Evolves-append : (os js : List Job) (row : Job) → Evolves os js → Evolves os (js ++ row ∷ [])
Evolves-append [] js row h = tt
Evolves-append (o ∷ os) [] row h = absurd h
Evolves-append (o ∷ os) (j ∷ js) row h = (h.0, Evolves-append os js row h.1)

-- The row of an id after any operations.
pub find_id-Evolves :
    (id : Ulid) (os js : List Job) {found : Job}
    → Evolves os js
    → find_id id os ≡ some found
    → (j : Job) × (find_id id js ≡ some j) × Evolved found j
unfolding find_id
find_id-Evolves id [] js h e = absurd (ground arith)
find_id-Evolves id (o ∷ os) [] h e = absurd h
find_id-Evolves id (o ∷ os) (j ∷ js) {found} h e = elim (Bool-cases (o.id == id)) [
  | inl y ↦ (
    j,
    ground (arith, h.0.same_id),
    let here : o ≡ found = ground arith in subst (λ x. Evolved x j) here h.0,
  )
  | inr n ↦
      let (k, at, ev) = find_id-Evolves id os js {found = found} h.1 (ground arith) in
      (k, ground (arith, h.0.same_id, at), ev)
]
