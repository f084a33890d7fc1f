-- ===== src/Cynosure/Poll/Stored.antt =====
-- A state that is stored for a job is among those that the job's step goes by.
use common_build.Common.{◌≡◌, refl, sym, ap, ◌∙◌, inl, inr, ℕ, List, [], ◌∷◌, Elem, some}
use common_build.Common.Text.{Text}
use common_build.Common.Result.{ok, err, Result-cases}
use common_build.Cynosure.States.{
  Json, JobState, job_starting, job_started, job_queued, job_abort, serialize, deserialize,
  deserialize-serialize_job_state,
}
use common_build.Cynosure.Executor.{reverse_onto, deserialize_states, last_abort, last_queued}

module _ (json : Json) where
  -- What was stored is among the states that are read.
  pub read_state :
      (state : JobState) (texts : List Text) (states : List JobState)
      → Elem (serialize json state) texts
      → deserialize_states json texts ≡ ok states
      → Elem state states
  unfolding deserialize_states
  read_state state [] states e h = elim e [ ]
  read_state state (t ∷ texts) states e h = elim (Result-cases (deserialize json t)) [
    | inl (m, r) ↦ let no : err m ≡ ok states = rw r at h in cc
    | inr (first, r) ↦ elim (Result-cases (deserialize_states json texts)) [
      | inl (m, q) ↦ let no : err m ≡ ok states = rw (r, q) at h in cc
      | inr (rest, q) ↦
          let same : ok (first ∷ rest) ≡ ok states = rw (r, q) at h in
          let list : first ∷ rest ≡ states = cc in
          rw (sym list) (elim e [
            | inl here ↦
                let given : ok first ≡ ok state =
                  sym r
                  ∙ (ap (deserialize json) (sym here)
                      ∙ deserialize-serialize_job_state json state) in
                inl (let eq : state ≡ first = cc in eq)
            | inr later ↦ inr (read_state state texts rest later q)
          ])
    ]
  ]

pub Elem-reverse_onto :
    (state : JobState) (xs ys : List JobState) → Elem state xs → Elem state (reverse_onto xs ys)
Elem-reverse_onto state [] ys e = elim e [ ]
Elem-reverse_onto state (x ∷ xs) ys (inl e) = reversed xs (x ∷ ys) (inl e)
  where
    reversed : (xs ys : List JobState) → Elem state ys → Elem state (reverse_onto xs ys)
    reversed [] ys e = e
    reversed (x ∷ xs) ys e = reversed xs (x ∷ ys) (inr e)
Elem-reverse_onto state (x ∷ xs) ys (inr e) = Elem-reverse_onto state xs (x ∷ ys) e

pub last_abort-some :
    (reason : Text) (states : List JobState)
    → Elem (job_abort reason) states
    → (r : Text) × (last_abort states ≡ some r)
unfolding last_abort
last_abort-some reason [] e = elim e [ ]
last_abort-some reason (job_abort r ∷ states) e = (r, refl)
last_abort-some reason (job_queued n ∷ states) (inl e) = cc
last_abort-some reason (job_queued n ∷ states) (inr e) = last_abort-some reason states e
last_abort-some reason (job_starting p n ∷ states) (inl e) = cc
last_abort-some reason (job_starting p n ∷ states) (inr e) = last_abort-some reason states e
last_abort-some reason (job_started p a n ∷ states) (inl e) = cc
last_abort-some reason (job_started p a n ∷ states) (inr e) = last_abort-some reason states e

pub last_queued-some :
    (failures : ℕ) (states : List JobState)
    → Elem (job_queued failures) states
    → (n : ℕ) × (last_queued states ≡ some n)
unfolding last_queued
last_queued-some failures [] e = elim e [ ]
last_queued-some failures (job_queued n ∷ states) e = (n, refl)
last_queued-some failures (job_abort r ∷ states) (inl e) = cc
last_queued-some failures (job_abort r ∷ states) (inr e) = last_queued-some failures states e
last_queued-some failures (job_starting p n ∷ states) (inl e) = cc
last_queued-some failures (job_starting p n ∷ states) (inr e) = last_queued-some failures states e
last_queued-some failures (job_started p a n ∷ states) (inl e) = cc
last_queued-some failures (job_started p a n ∷ states) (inr e) = last_queued-some failures states e
