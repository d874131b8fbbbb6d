-- ===== src/BuildHandlers/Profiles/Links.antt =====
-- The handlers of build profiles keep the profile of every build job.
use mathlib.Core.Path.{subst}
use opendesk_remote.Prelude.{
  String, ℤ, ◌≡◌, sym, ap, ◌∙◌, inl, inr, Bool, true, false, Bool-cases, Option, none, some, Time,
  List, [], ◌∷◌, All, All-map, any, any-append, any-modify_first, any-remove_first, remove_first,
  Result, ok, err, arith, int_eq_iff, ◌==◌, string_eq, int_has_eq,
}
use opendesk_remote.Models.Builds.{BuildProfile, BuildJob}
use opendesk_remote.Repository.{Memory}
use opendesk_remote.Repository.Lookup.{guarded-keeps}
use opendesk_remote.Repository.Builds.{
  create_build_profile, update_build_profile, delete_build_profile,
}
use opendesk_remote.Http.{Reply, Visit, Event, audited}
use opendesk_remote.Http.Audited.{audited-noted}
use opendesk_remote.PolicyHandlers.{Printing}
use opendesk_remote.BuildHandlers.Profiles.{
  Coding, CreateProfileRequest, on_profile, on_session, on_spec, on_request, profile_created,
  post_profile, profile_updated, put_profile, profile_deleted, delete_profile, profile_from_spec,
  profile_name,
}
use opendesk_remote.Auth.{Principal}
use opendesk_remote.Buildspec.{validate}

-- Some profile has the number.
abbrev pub has_profile : List BuildProfile → ℤ → Bool
has_profile profiles id = any (λ (profile : BuildProfile). profile.id == id) profiles

abbrev pub IsLinked : Memory → Type 0
IsLinked m =
    All (λ (job : BuildJob). has_profile m.build_profiles job.profile_id ≡ true) m.build_jobs

-- The repository's calls.
created_profile-IsLinked :
    (m : Memory) (now : Time) (profile : BuildProfile)
    → IsLinked m
    → IsLinked (create_build_profile m now profile).0
unfolding create_build_profile
created_profile-IsLinked m now profile h = guarded-keeps IsLinked _ _ m _ h (
    All-map _ _ m.build_jobs
      (λ job linked. any-append _ m.build_profiles _ ∙ ground (arith, linked)) h)

updated_profile-IsLinked :
    (m : Memory) (now : Time) (id : ℤ) (profile : BuildProfile)
    → IsLinked m
    → IsLinked (update_build_profile m now id profile).0
unfolding update_build_profile
updated_profile-IsLinked m now id profile h = guarded-keeps IsLinked _ _ m _ h (
    All-map _ _ m.build_jobs
      (λ job linked.
        any-modify_first _ (λ (p : BuildProfile). p.id == job.profile_id) _ m.build_profiles
          (λ old hit. ap (λ own. own == job.profile_id) (sym ((int_eq_iff old.id id).0 hit)))
        ∙ linked)
      h)

deleted_profile-IsLinked :
    (m : Memory) (id : ℤ) → IsLinked m → IsLinked (delete_build_profile m id).0
unfolding delete_build_profile any
deleted_profile-IsLinked m id h =
    elim (Bool-cases (any (λ (job : BuildJob). job.profile_id == id) m.build_jobs)) [
      | inl used ↦ rw used h
      | inr free ↦ rw free (guarded-keeps IsLinked _ _ m _ h (kept m.build_jobs free h))
    ]
  where
    kept :
        (jobs : List BuildJob)
        → any (λ (job : BuildJob). job.profile_id == id) jobs ≡ false
        → All (λ (job : BuildJob). has_profile m.build_profiles job.profile_id ≡ true) jobs
        → All
            (λ (job : BuildJob).
              has_profile
                (remove_first (λ (p : BuildProfile). p.id == id) m.build_profiles)
                job.profile_id
              ≡ true)
            jobs
    kept [] free h = tt
    kept (job ∷ jobs) free h = (
      any-remove_first _ (λ (p : BuildProfile). p.id == job.profile_id) m.build_profiles
            (λ p hit. ground (
              arith,
              hit,
              free,
              int_eq_iff p.id id,
              int_eq_iff p.id job.profile_id,
              int_eq_iff job.profile_id id,
            ))
          ∙ h.0,
      kept jobs (ground (arith, free)) h.1,
    )

-- The state that an audit event leaves is linked where the state before it is.
pub audited-IsLinked :
    {B : Type 0} (visit : Visit) (now : Time) (event : Event) (complaint : String) (reply : Reply B)
    (m : Memory)
    → IsLinked m
    → IsLinked (audited visit now event complaint reply m).0
audited-IsLinked visit now event complaint reply m h =
    subst IsLinked (sym (ap (λ r. r.0) (audited-noted visit now event complaint reply m))) h

module _ (coding : Coding) (is_bundle_id : String → Bool) (printing : Printing)
    (visit : Visit) where
  request-IsLinked :
      (write : BuildProfile → Memory × Reply BuildProfile) (m : Memory)
      (req : Option CreateProfileRequest)
      → ((profile : BuildProfile) → IsLinked (write profile).0)
      → IsLinked m
      → IsLinked (on_request coding is_bundle_id printing visit write m req).0
  unfolding on_request on_spec on_session on_profile
  request-IsLinked write m none written h = h
  request-IsLinked write m (some req) written h = on_specs (validate is_bundle_id req.build_spec)
    where
      on_profiles :
          (r : Result BuildProfile)
          → IsLinked (on_profile coding is_bundle_id printing visit write m r).0
      on_profiles (err e) = h
      on_profiles (ok profile) = written profile

      on_sessions :
          (s : Option Principal)
          → IsLinked (on_session coding is_bundle_id printing visit write m req s).0
      on_sessions none = h
      on_sessions (some session) =
          on_profiles (profile_from_spec coding (profile_name req) req.build_spec session.user.id)

      on_specs :
          (r : Result (Unit {0}))
          → IsLinked (on_spec coding is_bundle_id printing visit write m req r).0
      on_specs (err e) = h
      on_specs (ok u) = on_sessions visit.session

  pub post_profile-IsLinked :
      (m : Memory) (now logged : Time) (req : Option CreateProfileRequest)
      → IsLinked m
      → IsLinked (post_profile coding is_bundle_id printing visit m now logged req).0
  unfolding post_profile profile_created
  post_profile-IsLinked m now logged req h =
      request-IsLinked _ m req
        (λ profile.
          created (create_build_profile m now profile) (created_profile-IsLinked m now profile h))
        h
    where
      created :
          (r : Memory × Result BuildProfile)
          → IsLinked r.0
          → IsLinked (profile_created coding is_bundle_id printing visit logged r).0
      created (m, err e) h = h
      created (m, ok profile) h = audited-IsLinked visit logged _ _ _ m h

  pub put_profile-IsLinked :
      (m : Memory) (now logged : Time) (id : ℤ) (req : Option CreateProfileRequest)
      → IsLinked m
      → IsLinked (put_profile coding is_bundle_id printing visit m now logged id req).0
  unfolding put_profile profile_updated
  put_profile-IsLinked m now logged id req h =
      request-IsLinked _ m req
        (λ profile.
          updated (update_build_profile m now id profile)
            (updated_profile-IsLinked m now id profile h))
        h
    where
      updated :
          (r : Memory × Result BuildProfile)
          → IsLinked r.0
          → IsLinked (profile_updated coding is_bundle_id printing visit logged r).0
      updated (m, err e) h = h
      updated (m, ok profile) h = audited-IsLinked visit logged _ _ _ m h

pub delete_profile-IsLinked :
    (printing : Printing) (visit : Visit) (m : Memory) (logged : Time) (id : ℤ)
    → IsLinked m
    → IsLinked (delete_profile printing visit m logged id).0
unfolding delete_profile profile_deleted
delete_profile-IsLinked printing visit m logged id h =
    deleted (delete_build_profile m id) (deleted_profile-IsLinked m id h)
  where
    deleted :
        (r : Memory × Result (Unit {0}))
        → IsLinked r.0
        → IsLinked (profile_deleted printing visit logged id r).0
    deleted (m, err e) h = h
    deleted (m, ok u) h = audited-IsLinked visit logged _ _ _ m h
