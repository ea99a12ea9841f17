-- ===== src/Utils/Backoff.antt =====
-- pkg/utils/file.go: the loop of `WaitForFileWithBackoffs`, by rounds, and the time that it sleeps.
use podman_bootc.Base.{
  ℕ, zero, suc, ◌+◌, ◌*◌, ◌^◌, ◌≤◌, ◌≡◌, refl, ◌∷◌, Text, lit, ◌++◌, if◌then◌else◌, arith,
}
use podman_bootc.Go.Errors.{Result, ok, err, new_error}
use podman_bootc.Utils.Files.{exists_of, file_exists, wait_rounds, wait_for_file_with_backoffs}
use podman_bootc.World.Calls.{System, Answer, done, failed, stat_size, measured, Trace}
use podman_bootc.World.Exec.{
  pure, fail, attempt, measure, pause, given, caught, continue, ◌>>=◌, ◌>>◌,
}
use podman_bootc.World.Sleeps.{slept, rested, pause_step}

double : (b n : ℕ) → b * 2 ^ suc n ≡ b * 2 * 2 ^ n
double b n = grind arith

grows : (b n : ℕ) → b ≤ b * 2 ^ n
grows b zero = omega arith
grows b (suc n) = omega (arith, grows (b * 2) n, double b n)

module _ (sys : System) (path : Text) where
  -- The history after one look.
  abbrev looked : Trace → Trace
  looked t = measured (stat_size path) (sys.measure t (stat_size path)) ∷ t

  abbrev look_result : ℕ → ℕ → Trace → Answer ℕ → Result (Unit {0}) × Trace
  look_result n backoff t (done s) = (ok tt, t)
  look_result n backoff t (failed e) = wait_rounds sys n (backoff * 2) path (rested sys backoff t)

  file_exists_lem :
      (t : Trace)
      → file_exists sys path t ≡ (ok (exists_of (given (sys.measure t (stat_size path)))), looked t)
  unfolding file_exists attempt measure pure ◌>>=◌
  file_exists_lem t = by_answer (sys.measure t (stat_size path)) (looked t)
    where
      by_answer :
          (r : Answer ℕ) (u : Trace)
          → continue (λ x. pure (exists_of x)) (caught (given r)) u ≡ (ok (exists_of (given r)), u)
      by_answer (done s) u = refl
      by_answer (failed e) u = refl

  -- One round of the loop.
  look_step :
      (n backoff : ℕ) (t : Trace)
      → wait_rounds sys (suc n) backoff path t
        ≡ look_result n backoff (looked t) (sys.measure t (stat_size path))
  unfolding wait_rounds pure ◌>>=◌
  look_step n backoff t =
      rw (file_exists_lem t) (by_answer (sys.measure t (stat_size path)) (looked t))
    where
      by_answer :
          (r : Answer ℕ) (u : Trace)
          → (if (exists_of (given r)).0
                then pure tt
                else (do pause sys backoff; wait_rounds sys n (backoff * 2) path))
              u
            ≡ look_result n backoff u r
      by_answer (done s) u = refl
      by_answer (failed e) u = pause_step sys backoff _ u

  no_rounds :
      (backoff : ℕ) (t : Trace)
      → wait_rounds sys 0 backoff path t
        ≡ (err (new_error (lit "unable to find file at " ++ path)), t)
  unfolding wait_rounds fail
  no_rounds backoff t = refl

  result-bounded :
      (n backoff : ℕ) (t : Trace) (a r : Answer ℕ)
      → let u = measured (stat_size path) a ∷ t in
        (slept (wait_rounds sys n (backoff * 2) path (rested sys backoff u)).1 + backoff * 2
          ≤ slept (rested sys backoff u) + backoff * 2 * 2 ^ n)
        → slept (look_result n backoff u r).1 + backoff ≤ slept t + backoff * 2 ^ suc n
  result-bounded n backoff t a (done s) h = omega (arith, grows backoff (suc n))
  result-bounded n backoff t a (failed e) h = omega (arith, h, double backoff n)

  wait_rounds-bounded :
      (n backoff : ℕ) (t : Trace)
      → slept (wait_rounds sys n backoff path t).1 + backoff ≤ slept t + backoff * 2 ^ n
  wait_rounds-bounded zero backoff t = rw (no_rounds backoff t) (omega arith)
  wait_rounds-bounded (suc n) backoff t = rw (look_step n backoff t) (
      result-bounded n backoff t _ (sys.measure t (stat_size path))
        (wait_rounds-bounded n (backoff * 2) _))

  live_result :
      (n backoff : ℕ) (t : Trace) (r : Answer ℕ)
      → (wait_rounds sys n (backoff * 2) path (rested sys backoff t)).0 ≡ ok tt
      → (look_result n backoff t r).0 ≡ ok tt
  live_result n backoff t (done s) h = refl
  live_result n backoff t (failed e) h = h

  -- Once this time was slept, the file is there.
  abbrev pub AppearsAfter : ℕ → Type 0
  AppearsAfter ms = (u : Trace) → ms ≤ slept u → (s : ℕ) × (sys.measure u (stat_size path) ≡ done s)

  wait_rounds-live :
      (n backoff : ℕ) (t : Trace) (ms : ℕ)
      → ms + backoff ≤ slept t + backoff * 2 ^ n
      → AppearsAfter ms
      → (wait_rounds sys (suc n) backoff path t).0 ≡ ok tt
  wait_rounds-live zero backoff t ms h appears =
      let (s, e) = appears t (omega arith) in rw (look_step 0 backoff t, e) refl
  wait_rounds-live (suc n) backoff t ms h appears = rw (look_step (suc n) backoff t) (
      live_result (suc n) backoff (looked t) (sys.measure t (stat_size path))
        (wait_rounds-live n (backoff * 2) _ ms (omega (arith, double backoff n)) appears))

-- For every system, number of rounds, first backoff, path and history: waiting for a file sleeps at
-- most `backoff * (2 ^ rounds - 1)` ms.
pub wait_for_file_with_backoffs-bounded :
    (sys : System) (rounds backoff : ℕ) (path : Text) (t : Trace)
    → slept (wait_for_file_with_backoffs sys rounds backoff path t).1 + backoff
      ≤ slept t + backoff * 2 ^ rounds
unfolding wait_for_file_with_backoffs
wait_for_file_with_backoffs-bounded sys rounds backoff path t =
    wait_rounds-bounded sys path rounds backoff t

-- For every system, number of rounds, first backoff, path and history: if the file is there whenever
-- the process has slept for `ms` since its start, and this is at most what all rounds but the last
-- sleep, `backoff * (2 ^ rounds - 1)`, beyond what it has slept before, waiting for it succeeds.
pub wait_for_file_with_backoffs-live :
    (sys : System) (rounds backoff : ℕ) (path : Text) (t : Trace) (ms : ℕ)
    → ms + backoff ≤ slept t + backoff * 2 ^ rounds
    → AppearsAfter sys path ms
    → (wait_for_file_with_backoffs sys (suc rounds) backoff path t).0 ≡ ok tt
unfolding wait_for_file_with_backoffs
wait_for_file_with_backoffs-live sys rounds backoff path t ms h appears =
    wait_rounds-live sys path rounds backoff t ms h appears
