-- ===== src/Repository/Builds/Jobs/Numbers.antt =====
-- The numbers of the jobs: none is above the counter, and no two jobs have the same.
use mathlib.Core.Path.{subst}
use opendesk_remote.Prelude.{
  suc, zero, ◌-◌, ◌^◌, ℤ, pos, negsuc, ◌≡◌, refl, sym, ap, ◌∙◌, inl, inr, Bool, true, false,
  Bool-cases, List, [], ◌∷◌, ◌++◌, none, some, find_first, modify_first, All, inc64, wrap64, int_lt,
  is_pos, not, ◌||◌, arith, int_eq_iff, ◌==◌, string_eq, int_has_eq,
}
use opendesk_remote.Models.Builds.{BuildJob}
use opendesk_remote.Repository.{Memory}
use opendesk_remote.Repository.Builds.{
  is_queued, started, create_build_job, claim_next_build_job, finish_build_job, complete_build_job,
  fail_build_job, cancel_build_job,
}
use opendesk_remote.Repository.Builds.Jobs.{
  Step, creates, claims, completes, fails, cancels, other, Steps, here, next,
}

abbrev pub at_id : ℤ → BuildJob → Bool
at_id id job = job.id == id

abbrev pub HasDistinctIds : List BuildJob → Type 0
HasDistinctIds [] = Unit
HasDistinctIds (job ∷ jobs) = (find_first (at_id job.id) jobs ≡ none) × HasDistinctIds jobs

-- All numbers are at most that of the counter, and distinct.
abbrev pub IsNumbered : ℤ → List BuildJob → Type 0
IsNumbered top jobs = All (λ (job : BuildJob). int_lt top job.id ≡ false) jobs × HasDistinctIds jobs

inc64_above :
    (top id : ℤ)
    → int_lt top (pos (2 ^ 63 - 1)) ≡ true
    → int_lt top id ≡ false
    → (int_lt (inc64 top) id ≡ false) × ((id == inc64 top) ≡ false)
unfolding inc64 wrap64
inc64_above (pos n) (pos k) room h = ground arith
inc64_above (pos n) (negsuc k) room h = ground arith
inc64_above (negsuc zero) (pos k) room h = ground arith
inc64_above (negsuc zero) (negsuc k) room h = ground arith
inc64_above (negsuc (suc n)) (pos k) room h = ground arith
inc64_above (negsuc (suc n)) (negsuc k) room h = ground arith

inc64_self : (top : ℤ) → int_lt (inc64 top) (inc64 top) ≡ false
inc64_self top = int_lt_self (inc64 top)
  where
    int_lt_self : (x : ℤ) → int_lt x x ≡ false
    int_lt_self (pos n) = ground arith
    int_lt_self (negsuc n) = ground arith

absent-append :
    (p : BuildJob → Bool) (jobs : List BuildJob) (new : BuildJob)
    → find_first p jobs ≡ none
    → p new ≡ false
    → find_first p (jobs ++ (new ∷ [])) ≡ none
unfolding find_first
absent-append p [] new e h = ground (arith, h)
absent-append p (job ∷ jobs) new e h = ground (arith, absent-append p jobs new)

append-IsNumbered :
    (top : ℤ) (jobs : List BuildJob) (new : BuildJob)
    → int_lt top (pos (2 ^ 63 - 1)) ≡ true
    → new.id ≡ inc64 top
    → IsNumbered top jobs
    → IsNumbered (inc64 top) (jobs ++ (new ∷ []))
unfolding find_first
append-IsNumbered top [] new room same h =
    ((ap (int_lt (inc64 top)) same ∙ inc64_self top, tt), (refl, tt))
append-IsNumbered top (job ∷ jobs) new room same h =
    let above = inc64_above top job.id room h.0.0 in
    let rest = append-IsNumbered top jobs new room same (h.0.1, h.1.1) in
    (
      (above.0, rest.0),
      (
        absent-append (at_id job.id) jobs new h.1.0 (
            ground (arith, above.1, same, int_eq_iff job.id (inc64 top), int_eq_iff new.id job.id)),
        rest.1,
      ),
    )

higher : (a b id : ℤ) → int_lt b a ≡ false → int_lt a id ≡ false → int_lt b id ≡ false
higher (pos a) (pos b) (pos c) h k = ground arith
higher (pos a) (pos b) (negsuc c) h k = ground arith
higher (pos a) (negsuc b) (pos c) h k = ground arith
higher (pos a) (negsuc b) (negsuc c) h k = ground arith
higher (negsuc a) (pos b) (pos c) h k = ground arith
higher (negsuc a) (pos b) (negsuc c) h k = ground arith
higher (negsuc a) (negsuc b) (pos c) h k = ground arith
higher (negsuc a) (negsuc b) (negsuc c) h k = ground arith

raise-IsNumbered :
    (top top' : ℤ) (jobs : List BuildJob)
    → int_lt top' top ≡ false
    → IsNumbered top jobs
    → IsNumbered top' jobs
raise-IsNumbered top top' [] le h = (tt, tt)
raise-IsNumbered top top' (job ∷ jobs) le h =
    let rest = raise-IsNumbered top top' jobs le (h.0.1, h.1.1) in
    ((higher top top' job.id le h.0.0, rest.0), (h.1.0, rest.1))

module _ (p : BuildJob → Bool) (f : BuildJob → BuildJob)
    (keeps : (job : BuildJob) → (f job).id ≡ job.id) where
  absent-modify :
      (id : ℤ) (jobs : List BuildJob)
      → find_first (at_id id) jobs ≡ none
      → find_first (at_id id) (modify_first p f jobs) ≡ none
  unfolding find_first modify_first
  absent-modify id [] e = refl
  absent-modify id (job ∷ jobs) e = ground (arith, keeps job, absent-modify id jobs)

  pub modify-IsNumbered :
      (top : ℤ) (jobs : List BuildJob)
      → IsNumbered top jobs
      → IsNumbered top (modify_first p f jobs)
  unfolding modify_first
  modify-IsNumbered top [] h = h
  modify-IsNumbered top (job ∷ jobs) h = elim (Bool-cases (p job)) [
    | inl hit ↦ rw hit (
      (ap (int_lt top) (keeps job) ∙ h.0.0, h.0.1),
      (ap (λ id. find_first (at_id id) jobs) (keeps job) ∙ h.1.0, h.1.1),
    )
    | inr miss ↦
        let rest = modify-IsNumbered top jobs (h.0.1, h.1.1) in
        rw miss ((h.0.0, rest.0), (absent-modify job.id jobs h.1.0, rest.1))
  ]

pub Step-IsNumbered :
    {m m' : Memory}
    → Step m m'
    → IsNumbered m.next_id m.build_jobs
    → IsNumbered m'.next_id m'.build_jobs
unfolding create_build_job claim_next_build_job complete_build_job fail_build_job cancel_build_job
    finish_build_job
Step-IsNumbered (creates m now job room) h =
    elim (Bool-cases (not (is_pos job.profile_id) || job.platform == "")) [
      | inl refused ↦ rw refused h
      | inr accepted ↦ rw accepted (append-IsNumbered m.next_id m.build_jobs _ room refl h)
    ]
Step-IsNumbered (claims m runner at) h =
    modify-IsNumbered is_queued (started runner at) (λ job. refl) m.next_id m.build_jobs h
Step-IsNumbered (completes m own log_path at) h =
    modify-IsNumbered _ _ (λ job. refl) m.next_id m.build_jobs h
Step-IsNumbered (fails m own log_path message at) h =
    modify-IsNumbered _ _ (λ job. refl) m.next_id m.build_jobs h
Step-IsNumbered (cancels m own message at) h =
    modify-IsNumbered _ _ (λ job. refl) m.next_id m.build_jobs h
Step-IsNumbered (other m m' same grows) h =
    subst (IsNumbered m'.next_id) (sym same)
      (raise-IsNumbered m.next_id m'.next_id m.build_jobs grows h)

-- Whatever calls follow one another, as long as the counter has not run out: the numbers of the jobs
-- stay distinct and at most that of the counter.
pub Steps-IsNumbered :
    {m m' : Memory}
    → Steps m m'
    → IsNumbered m.next_id m.build_jobs
    → IsNumbered m'.next_id m'.build_jobs
Steps-IsNumbered here h = h
Steps-IsNumbered (next steps step) h = Step-IsNumbered step (Steps-IsNumbered steps h)

-- Where numbers are distinct, a job that a search finds is the one with its number.
pub find_first-own_id :
    (p : BuildJob → Bool) (jobs : List BuildJob) (job : BuildJob)
    → HasDistinctIds jobs
    → find_first p jobs ≡ some job
    → find_first (at_id job.id) jobs ≡ some job
unfolding find_first
find_first-own_id p [] job distinct e = absurd (ground arith)
find_first-own_id p (x ∷ xs) job distinct e = elim (Bool-cases (p x)) [
  | inl hit ↦
      let same : x ≡ job = ground (arith, hit) in
      ground (arith, same, int_eq_iff x.id job.id, ap (λ (k : BuildJob). k.id) same)
  | inr miss ↦
      let found : find_first p xs ≡ some job = ground (arith, miss) in
      let rest = find_first-own_id p xs job distinct.1 found in
      elim (Bool-cases (at_id job.id x)) [
        | inl clash ↦ absurd (
            ground (
              arith,
              clash,
              rest,
              distinct.0,
              ap (λ id. find_first (at_id id) xs) ((int_eq_iff x.id job.id).0 clash),
            ))
        | inr apart ↦ ground (arith, apart, rest)
      ]
]
