-- ===== src/World/Sleeps.antt =====
-- Sleeping: how long a history has slept, and what a sleep does to a program.
use podman_bootc.Base.{ℕ, ◌+◌, ◌≡◌, refl, [], ◌∷◌}
use podman_bootc.World.Calls.{System, Action, sleep, Answer, done, failed, Event, acted, Trace}
use podman_bootc.Base.{◌≤◌, arith}
use podman_bootc.Go.Errors.{Result, ok, err, panic}
use podman_bootc.World.Events.{Extends, same, more, Does}
use podman_bootc.World.Exec.{
  M, pure, pause, ignore, attempt, act, given, caught, continue, ◌>>=◌, ◌>>◌,
}

abbrev sleep_of : Action → ℕ
sleep_of (sleep ms) = ms
sleep_of _ = 0

abbrev slept_in : Event → ℕ
slept_in (acted c r) = sleep_of c
slept_in _ = 0

abbrev pub sum_of : (Event → ℕ) → Trace → ℕ
sum_of f [] = 0
sum_of f (e ∷ t) = f e + sum_of f t

-- The time that a history has slept, in ms.
abbrev pub slept : Trace → ℕ
slept t = sum_of slept_in t

-- The history after a sleep.
abbrev pub rested : System → ℕ → Trace → Trace
rested sys ms t = acted (sleep ms) (sys.act t (sleep ms)) ∷ t

-- A sleep goes on, whatever the answer.
pub pause_step :
    {A : Type 0} (sys : System) (ms : ℕ) (m : M A) (t : Trace)
    → (do pause sys ms; m) t ≡ m (rested sys ms t)
unfolding pause ignore attempt act pure ◌>>=◌
pause_step sys ms m t = by_answer (sys.act t (sleep ms))
  where
    by_answer :
        (r : Answer (Unit {0}))
        → let u = acted (sleep ms) r ∷ t in
          continue
            (λ _. m)
            (continue (λ _. pure tt) (caught (given r)) u).0
            (continue (λ _. pure tt) (caught (given r)) u).1
          ≡ m u
    by_answer (done x) = refl
    by_answer (failed e) = refl

abbrev pub IsAwake : Event → Type 0
IsAwake e = slept_in e ≡ 0

slept-Extends : {t u : Trace} → Extends IsAwake t u → slept u ≡ slept t
slept-Extends same = refl
slept-Extends (more e p k) = omega (arith, p, slept-Extends k)

module _ {A B : Type 0} where
  slept-continue :
      (n : ℕ) (f : A → M B) (r : Result A) (t : Trace)
      → ((a : A) (u : Trace) → slept (f a u).1 ≤ slept u + n)
      → slept (continue f r t).1 ≤ slept t + n
  slept-continue n f (ok a) t h = h a t
  slept-continue n f (err e) t h = omega arith
  slept-continue n f panic t h = omega arith

  -- A program whose first part does not sleep sleeps as long as the second.
  pub slept-bind :
      (n : ℕ) (m : M A) (f : A → M B) (t : Trace)
      → Does IsAwake m
      → ((a : A) (u : Trace) → slept (f a u).1 ≤ slept u + n)
      → slept ((m >>= f) t).1 ≤ slept t + n
  unfolding ◌>>=◌
  slept-bind n m f t h hf =
      omega (arith, slept-Extends (h.on t), slept-continue n f (m t).0 (m t).1 hf)
