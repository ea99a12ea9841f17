-- ===== src/Vm/Waits.antt =====
-- pkg/vm/vm_linux.go: the loop of `waitForVMToBeRunning`, by rounds.
use podman_bootc.Base.{
  ℕ, zero, suc, ◌+◌, ◌*◌, ◌≤◌, ◌<◌, Bool, true, false, ◌≡◌, refl, ◌==◌, ◌∷◌, lit, if◌then◌else◌,
  arith,
}
use podman_bootc.Go.Errors.{Result, ok, err, wrap}
use podman_bootc.Vm.Linux.{
  domain_running, start_interval, start_timeout, poll_rounds, wait_for_vm_to_be_running,
}
use podman_bootc.World.Calls.{
  System, Answer, done, failed, Measure, domain_state, Event, measured, Trace,
}
use podman_bootc.World.Exec.{
  pure, fail, retry, context, ◌>>=◌, ◌>>◌, pause, measure, given, wrapped, continue,
}
use podman_bootc.World.Sleeps.{slept, sum_of, rested, pause_step}

abbrev is_poll_call : Measure → ℕ
is_poll_call (domain_state d) = 1
is_poll_call _ = 0

abbrev is_poll : Event → ℕ
is_poll (measured c r) = is_poll_call c
is_poll _ = 0

-- How often a history asked for the state of a domain.
abbrev pub polls : Trace → ℕ
polls t = sum_of is_poll t

module _ (sys : System) (d : ℕ) where
  -- The history after one question.
  abbrev asked : Trace → Trace
  asked t = measured (domain_state d) (sys.measure t (domain_state d)) ∷ t

  abbrev poll_result : ℕ → Trace → Answer ℕ → Result (Unit {0}) × Trace
  poll_result n t (done s) =
      if s == domain_running then (ok tt, t) else poll_rounds sys n d (rested sys start_interval t)
  poll_result n t (failed e) = (err (wrap (lit "unable to get VM state") e), t)

  after_state :
      (b : Bool) (n : ℕ) (t : Trace)
      → (if b then pure tt else (do pause sys start_interval; poll_rounds sys n d)) t
        ≡ (if b then (ok tt, t) else poll_rounds sys n d (rested sys start_interval t))
  unfolding pure
  after_state true n t = refl
  after_state false n t = pause_step sys start_interval (poll_rounds sys n d) t

  -- One round of the loop.
  poll_step :
      (n : ℕ) (t : Trace)
      → poll_rounds sys (suc n) d t ≡ poll_result n (asked t) (sys.measure t (domain_state d))
  unfolding poll_rounds retry context measure ◌>>=◌
  poll_step n t = by_answer (sys.measure t (domain_state d)) (asked t)
    where
      by_answer :
          (r : Answer ℕ) (u : Trace)
          → continue
              (λ s.
                if s == domain_running
                then pure tt
                else (do pause sys start_interval; poll_rounds sys n d))
              (wrapped (lit "unable to get VM state") (given r))
              u
            ≡ poll_result n u r
      by_answer (done s) u = after_state (s == domain_running) n u
      by_answer (failed e) u = refl

  abbrev IsBounded : ℕ → Trace → Trace → Type 0
  IsBounded n t u = (polls u ≤ polls t + n) × (slept u ≤ slept t + n * start_interval)

  poll_result-IsBounded :
      (n : ℕ) (t : Trace) (r a : Answer ℕ)
      → let u = measured (domain_state d) a ∷ t in
        (IsBounded n
          (rested sys start_interval u)
          (poll_rounds sys n d (rested sys start_interval u)).1)
        → IsBounded (suc n) t (poll_result n u r).1
  poll_result-IsBounded n t (done s) a h = by_state (s == domain_running)
    where
      by_state :
          (b : Bool)
          → let u = measured (domain_state d) a ∷ t in
            IsBounded
              (suc n)
              t
              (if b then (ok tt, u) else poll_rounds sys n d (rested sys start_interval u)).1
      by_state true = (omega arith, omega arith)
      by_state false = (omega (arith, h.0), omega (arith, h.1))
  poll_result-IsBounded n t (failed e) a h = (omega arith, omega arith)

  no_rounds : (t : Trace) → IsBounded 0 t (poll_rounds sys 0 d t).1
  unfolding poll_rounds retry fail
  no_rounds t = (omega arith, omega arith)

  poll_rounds-IsBounded : (n : ℕ) (t : Trace) → IsBounded n t (poll_rounds sys n d t).1
  poll_rounds-IsBounded zero t = no_rounds t
  poll_rounds-IsBounded (suc n) t = rw (poll_step n t) (
      poll_result-IsBounded n t (sys.measure t (domain_state d)) (sys.measure t (domain_state d))
        (poll_rounds-IsBounded n (rested sys start_interval (asked t))))

  -- The `k`-th question from `t` on, and all later ones, are answered with the running state.
  abbrev pub RunsAfter : ℕ → Trace → Type 0
  RunsAfter k t =
      (u : Trace) → polls t + k ≤ polls u → sys.measure u (domain_state d) ≡ done domain_running

  abbrev pub Answers : Type 0
  Answers = (u : Trace) → (s : ℕ) × (sys.measure u (domain_state d) ≡ done s)

  live_step :
      (n : ℕ) (b : Bool) (u : Trace)
      → (poll_rounds sys n d (rested sys start_interval u)).0 ≡ ok tt
      → (if b then (ok tt, u) else poll_rounds sys n d (rested sys start_interval u)).0 ≡ ok tt
  live_step n true u h = refl
  live_step n false u h = h

  poll_rounds-live :
      (n k : ℕ) (t : Trace) → k < n → Answers → RunsAfter k t → (poll_rounds sys n d t).0 ≡ ok tt
  poll_rounds-live zero k t h answers runs = absurd (omega arith)
  poll_rounds-live (suc n) zero t h answers runs = rw (poll_step n t, runs t (omega arith)) refl
  poll_rounds-live (suc n) (suc k) t h answers runs =
      let (s, e) = answers t in
      rw (poll_step n t, e)
        (live_step n (s == domain_running) (measured (domain_state d) (done s) ∷ t)
          (poll_rounds-live n k _ (omega arith) answers (λ w g. runs w (omega arith))))

-- For every system, domain and history: waiting for a domain to run asks for its state at most 60
-- times, and sleeps at most the timeout of 60 s.
pub wait_for_vm_to_be_running-bounded :
    (sys : System) (d : ℕ) (t : Trace)
    → let u = (wait_for_vm_to_be_running sys d t).1 in
      (polls u ≤ polls t + 60) × (slept u ≤ slept t + start_timeout)
unfolding wait_for_vm_to_be_running
wait_for_vm_to_be_running-bounded sys d t = poll_rounds-IsBounded sys d 60 t

-- For every system in which asking for the state of a domain does not fail, every history and every
-- `k` below 60: if the domain runs from the question after `k` others on, waiting for it succeeds.
pub wait_for_vm_to_be_running-live :
    (sys : System) (d k : ℕ) (t : Trace)
    → k < 60
    → Answers sys d
    → RunsAfter sys d k t
    → (wait_for_vm_to_be_running sys d t).0 ≡ ok tt
unfolding wait_for_vm_to_be_running
wait_for_vm_to_be_running-live sys d k t h answers runs =
    poll_rounds-live sys d 60 k t h answers runs
