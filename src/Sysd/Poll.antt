-- ===== src/Sysd/Poll.antt =====
-- src/sysd/dbus.rs and src/session/wait.rs: the loops that ask again until an answer comes or the time
-- is up. `elapsed k` is the time at the end of round `k`, in milliseconds; the fuel counts rounds.
use wsmr.Base.{
  ℕ, zero, suc, ◌+◌, ◌*◌, ◌/◌, ◌≤◌, Bool, true, false, not, Option, none, some, List, [], leb,
  if◌then◌else◌, all, keep, ◌≡◌, refl, arith,
}
use wsmr.Base.Text.{Text}
use wsmr.Base.Maps.{Map, keys}
use wsmr.Base.Sets.{member, text_key, extend}
use wsmr.Error.{Error, resolve, Result, ok, err}
use wsmr.Env.Filter.{keep_name}

-- An answer of one round: a result of the loop, or nothing yet.
abbrev pub Answer : Type 0 → Type 0
Answer A = Result (Option A)

module _ {A : Type 0} (ask : ℕ → Answer A) (elapsed : ℕ → ℕ) (timeout : ℕ)
    (expired : Result A) where
  after_round : Bool → Answer A → Option (Result A) → Option (Result A)
  after_round late (err e) next = some (err e)
  after_round late (ok (some a)) next = some (ok a)
  after_round late (ok none) next = if late then some expired else next

  -- `none` is the loop that has not ended within the fuel.
  pub poll : ℕ → ℕ → Option (Result A)
  unfolding after_round
  poll zero k = none
  poll (suc fuel) k = after_round (leb timeout (elapsed k)) (ask k) (poll fuel (suc k))

  -- How a loop may end: by an answer, by a failure, or when the time is up and there is no answer.
  pub data Ends : Result A → Type 0 where
    answered : (k : ℕ) (a : A) → ask k ≡ ok (some a) → Ends (ok a)
    broke : (k : ℕ) (e : Error) → ask k ≡ err e → Ends (err e)
    gave_up : (k : ℕ) → ask k ≡ ok none → timeout ≤ elapsed k → Ends expired

  -- A round ends the loop, or the time is not up and the rest ends it.
  round :
      (fuel k : ℕ)
      → (leb timeout (elapsed k) ≡ false → (r : Result A) × (poll fuel (suc k) ≡ some r) × Ends r)
      → (r : Result A) × (poll (suc fuel) k ≡ some r) × Ends r
  unfolding poll
  round fuel k next = go (ask k) refl (leb timeout (elapsed k)) refl
    where
      go :
          (a : Answer A)
          → ask k ≡ a
          → (late : Bool) → leb timeout (elapsed k) ≡ late
          → (r : Result A) × (after_round late a (poll fuel (suc k)) ≡ some r) × Ends r
      go (err e) ha late hl = (err e, refl, broke k e ha)
      go (ok (some a)) ha late hl = (ok a, refl, answered k a ha)
      go (ok none) ha true hl = (expired, refl, gave_up k ha (ground (arith, hl)))
      go (ok none) ha false hl = next hl

  -- A round takes at least `tick`, which is the length of its sleep.
  module _ (tick : ℕ) (slept : (k : ℕ) → elapsed k + tick ≤ elapsed (suc k)) where
    not_last : (f k : ℕ) → timeout ≤ elapsed k + suc f * tick → timeout ≤ elapsed (suc k) + f * tick
    not_last f k h = ground (arith, slept k, h)

    -- With a round for each tick of the time that is left, and one more, the loop ends.
    poll-Ends :
        (fuel k : ℕ)
        → timeout ≤ elapsed k + fuel * tick
        → (r : Result A) × (poll (suc fuel) k ≡ some r) × Ends r
    poll-Ends zero k h = round zero k (λ e. absurd (ground (arith, h, e)))
    poll-Ends (suc fuel) k h = round (suc fuel) k (λ e. poll-Ends fuel (suc k) (not_last fuel k h))

-- The job is not among those that are queued.
pub job_gone : Result (List Text) → Text → Answer (Unit {0})
unfolding member
job_gone (err e) job = err e
job_gone (ok jobs) job = if not (member job jobs) then ok (some tt) else ok none

-- `queued k` is the answer of `ListJobs` in round `k`: the paths of the jobs.
unfoldable pub wait_for_job :
    (ℕ → Result (List Text)) → (ℕ → ℕ) → Text → ℕ → ℕ → Option (Result (Unit {0}))
unfolding poll job_gone
wait_for_job queued elapsed job timeout fuel =
    poll (λ k. job_gone (queued k) job) elapsed timeout (err resolve) fuel 0

pub state_among : Result (Option Text) → List Text → Answer Bool
unfolding member
state_among (err e) states = err e
state_among (ok none) states = ok none
state_among (ok (some s)) states = if member s states then ok (some true) else ok none

-- A unit that is not there has no state.
unfoldable pub wait_for_unit :
    (ℕ → Result (Option Text)) → (ℕ → ℕ) → List Text → ℕ → ℕ → Option (Result Bool)
unfolding poll state_among
wait_for_unit state elapsed states timeout fuel =
    poll (λ k. state_among (state k) states) elapsed timeout (ok false) fuel 0

-- Every expected name is one of the variables.
pub all_there : List Text → Result (Map Text) → Answer (Unit {0})
unfolding member
all_there expected (err e) = err e
all_there expected (ok have) =
    if all (λ n. member n (keys have)) expected then ok (some tt) else ok none

unfoldable pub waitenv :
    (ℕ → Result (Map Text)) → (ℕ → ℕ) → List Text → ℕ → ℕ → Option (Result (Unit {0}))
unfolding poll all_there extend keep_name
waitenv vars elapsed varnames timeout fuel =
    poll (λ k. all_there (extend [] (keep keep_name varnames)) (vars k)) elapsed timeout
      (err resolve) fuel 0

-- The rounds that a loop may need whose rounds take at least `tick`.
abbrev pub rounds : ℕ → ℕ → ℕ
rounds tick timeout = suc (timeout / tick + 1)

enough : (elapsed : ℕ → ℕ) (timeout : ℕ) → timeout ≤ elapsed 0 + (timeout / 500 + 1) * 500
enough elapsed timeout = omega arith

enough_for_job : (elapsed : ℕ → ℕ) (timeout : ℕ) → timeout ≤ elapsed 0 + (timeout / 100 + 1) * 100
enough_for_job elapsed timeout = omega arith

-- The loops end, where a round takes at least the length of its sleep, 100 milliseconds for a job and
-- 500 for a unit and for the variables: with one round for each sleep in the timeout and two more,
-- each has a result. It is the answer of a round in which the job was gone, the unit was in one of
-- the states, or the variables were all there; or the failure of a round; or else there was no answer
-- in a round at whose end the time was up.
pub waits-Ends :
    (queued : ℕ → Result (List Text)) (state : ℕ → Result (Option Text))
    (vars : ℕ → Result (Map Text)) (job_time time : ℕ → ℕ) (job : Text) (states names : List Text)
    (timeout : ℕ)
    → ((k : ℕ) → job_time k + 100 ≤ job_time (suc k))
    → ((k : ℕ) → time k + 500 ≤ time (suc k))
    → ((r : Result (Unit {0})) × (wait_for_job queued job_time job timeout (rounds 100 timeout)
          ≡ some r)
        × Ends (λ k. job_gone (queued k) job) job_time timeout (err resolve) r)
      × ((r : Result Bool) × (wait_for_unit state time states timeout (rounds 500 timeout) ≡ some r)
          × Ends (λ k. state_among (state k) states) time timeout (ok false) r)
      × ((r : Result (Unit {0})) × (waitenv vars time names timeout (rounds 500 timeout) ≡ some r)
          × Ends
              (λ k. all_there (extend [] (keep keep_name names)) (vars k))
              time
              timeout
              (err resolve)
              r)
unfolding wait_for_job wait_for_unit waitenv
waits-Ends queued state vars job_time time job states names timeout js ts = (
  poll-Ends (λ k. job_gone (queued k) job) job_time timeout (err resolve) 100 js (timeout / 100 + 1)
      0 (enough_for_job job_time timeout),
  poll-Ends (λ k. state_among (state k) states) time timeout (ok false) 500 ts (timeout / 500 + 1) 0
      (enough time timeout),
  poll-Ends (λ k. all_there (extend [] (keep keep_name names)) (vars k)) time timeout (err resolve)
      500 ts (timeout / 500 + 1) 0 (enough time timeout),
)
