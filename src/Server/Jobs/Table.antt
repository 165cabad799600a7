-- ===== src/Server/Jobs/Table.antt =====
-- The table of jobs and the list of locks: what a look-up finds after each change.
use tab_vm.Strings.{Text, text_eq}
use tab_vm.Prelude.{
  Bool-cases, ℕ, ◌≡◌, refl, inl, inr, false, none, some, List, [], ◌∷◌, if◌then◌else◌, sym, ap, ◌∙◌,
  Bool, true,
}
use tab_vm.Strings.Laws.{text_eq_sound, text_eq_refl}
use tab_vm.Server.Jobs.{find_job, put_job, sweep_finished_jobs, overdue}
use tab_vm.Server.{Job}

pub text_eq_apart : (a b : Text) → (a ≡ b → ⊥) → text_eq a b ≡ false
text_eq_apart a b apart = elim (Bool-cases (text_eq a b)) [
  | inl same ↦ absurd (apart (text_eq_sound a b same))
  | inr other ↦ other
]

pub find_job-put_job :
    (id : Text) (j : Job) (js : List (Text × Job)) → find_job id (put_job id j js) ≡ some j
unfolding find_job put_job
find_job-put_job id j [] = rw (text_eq_refl id) refl
find_job-put_job id j ((key, old) ∷ js) = elim (Bool-cases (text_eq key id)) [
  | inl hit ↦ rw hit (rw (text_eq_refl id) refl)
  | inr miss ↦ rw miss (rw miss (find_job-put_job id j js))
]

pub find_job-put_job_other :
    (id key : Text) (j : Job) (js : List (Text × Job))
    → (key ≡ id → ⊥)
    → find_job id (put_job key j js) ≡ find_job id js
unfolding find_job put_job
find_job-put_job_other id key j [] apart = rw (text_eq_apart key id apart) refl
find_job-put_job_other id key j ((k, old) ∷ js) apart = elim (Bool-cases (text_eq k key)) [
  | inl hit ↦ rw (hit, text_eq_sound k key hit) (rw (text_eq_apart key id apart) refl)
  | inr miss ↦ rw miss (elim (Bool-cases (text_eq k id)) [
    | inl found ↦ rw found refl
    | inr further ↦ rw further (find_job-put_job_other id key j js apart)
  ])
]

some_injective : (old j : Job) → some old ≡ some j → old ≡ j
some_injective old j h = cc

-- A job that runs is not swept, however long it runs.
pub find_job-sweep_finished_jobs :
    (id : Text) (now : ℕ) (j : Job) (js : List (Text × Job))
    → j.ended_at ≡ none
    → find_job id js ≡ some j
    → find_job id (sweep_finished_jobs now js) ≡ some j
unfolding find_job sweep_finished_jobs
find_job-sweep_finished_jobs id now j [] running found = absurd (cc)
find_job-sweep_finished_jobs id now j ((key, old) ∷ js) running found =
    let first : (b : Bool)
        → text_eq key id ≡ b
        → (if b then some old else find_job id js) ≡ some j =
      (λ b same. sym (ap (λ b. if b then some old else find_job id js) same) ∙ found) in
    elim (Bool-cases (text_eq key id)) [
      | inl hit ↦
          let same : old ≡ j = (some_injective old j (first true hit)) in
          rw (ap (λ x. overdue now x.ended_at) same ∙ ap (overdue now) running)
            (rw hit (first true hit))
      | inr miss ↦ elim (Bool-cases (overdue now old.ended_at)) [
        | inl late ↦ rw late (find_job-sweep_finished_jobs id now j js running (first false miss))
        | inr kept ↦
            rw (kept, miss) (find_job-sweep_finished_jobs id now j js running (first false miss))
      ]
    ]
