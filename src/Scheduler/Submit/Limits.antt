-- ===== src/Scheduler/Submit/Limits.antt =====
-- The rate limit against the whole history of submissions.
use ksec.Prelude.{
  ℕ, ◌+◌, ◌≤◌, ◌<◌, ◌≡◌, ◌≢◌, refl, List, [], ◌∷◌, ◌++◌, arith, length, ltb, select, select-append,
}
use ksec.Prelude.Exec.{returned}
use ksec.Jobs.{Job, Spec}
use ksec.Scheduler.{Env, Scheduler}
use ksec.Scheduler.Submit.Effect.{IsFree, submit_facts}
use ksec.Scheduler.Submit.{recent, window, Readings, submit}

recent-recent : (now t : ℕ) (xs : List ℕ) → now ≤ t → recent t (recent now xs) ≡ recent t xs
unfolding select
recent-recent now t [] h = refl
recent-recent now t (x ∷ xs) h = ground (arith, recent-recent now t xs h)

-- The list that the scheduler keeps answers for the whole history from `now` on: it shows the
-- same submissions in every window that ends later.
pub record Tracks (history : List ℕ) (now : ℕ) (s : Scheduler) : Type 0 where
  pub same : (t : ℕ) → now ≤ t → recent t s.submit_times ≡ recent t history

Tracks-step :
    (history times : List ℕ) (now checked appended t : ℕ)
    → ((u : ℕ) → now ≤ u → recent u times ≡ recent u history)
    → now ≤ checked
    → checked ≤ t
    → recent t (recent checked times ++ appended ∷ []) ≡ recent t (history ++ appended ∷ [])
Tracks-step history times now checked appended t same later after = rw (
  select-append (λ u. ltb t (u + window)) (recent checked times) (appended ∷ []),
  select-append (λ u. ltb t (u + window)) history (appended ∷ []),
  recent-recent checked t times after,
  same t (omega arith),
)

-- With the lock free and a limit set: a submission that is accepted had fewer earlier ones in its
-- window, by the whole history, than the limit allows, and the list goes on to answer for the
-- history with the new instant. The clock must not run back.
pub submit-Tracks :
    (env : Env) (r : Readings) (spec : Spec) (s : Scheduler) (history : List ℕ) (now : ℕ)
    (job : Job)
    → IsFree s
    → Tracks history now s
    → now ≤ r.checked
    → env.config.rate_limit_per_minute ≢ 0
    → (submit env r spec s).0 ≡ returned job
    → (length (recent r.checked history) < env.config.rate_limit_per_minute)
      × Tracks (history ++ r.appended ∷ []) r.checked (submit env r spec s).1
submit-Tracks env r spec s history now job free tracks later nonzero done =
    let facts = submit_facts env r spec s job free done in
    (
      rw (← tracks.same r.checked later) (facts.7 nonzero),
      record {
        same = λ t after.
            rw facts.5 (
              Tracks-step history s.submit_times now r.checked r.appended t tracks.same later
                after);
      },
    )
