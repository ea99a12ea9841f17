-- ===== src/Vm/Console/Rounds.antt =====
-- pkg/vm/vm_linux.go: the loop of `PrintConsole` ends with its stream.
use podman_bootc.Base.{
  ℕ, zero, suc, ◌+◌, ◌≤◌, ◌<◌, Bool, true, false, ◌≡◌, refl, ◌==◌, ◌∷◌, lit, Option, some, arith,
  if◌then◌else◌,
}
use podman_bootc.Go.Errors.{Result, ok, err, panic, wrap}
use podman_bootc.Vm.Console.{console_rounds, print_console}
use podman_bootc.Vm.Linux.{BootcVmLinux}
use podman_bootc.World.Returns.{Returns-bind}
use podman_bootc.World.Calls.{
  System, Answer, done, failed, Measure, receive, Event, measured, Trace,
}
use podman_bootc.World.Exec.{M, pure, retry, context, ◌>>=◌, measure, given, wrapped, continue}
use podman_bootc.World.Sleeps.{sum_of}

abbrev is_receive_call : Measure → ℕ
is_receive_call (receive s) = 1
is_receive_call _ = 0

abbrev is_receive : Event → ℕ
is_receive (measured c r) = is_receive_call c
is_receive _ = 0

-- How often a history asked for the next bytes of a stream.
abbrev pub received : Trace → ℕ
received t = sum_of is_receive t

-- The end of a stream, or an error.
abbrev pub IsEnd : Answer ℕ → Type 0
IsEnd (done got) = got ≡ 0
IsEnd (failed e) = Unit

-- After `k` questions for bytes, each stream has ended.
abbrev pub EndsBy : System → ℕ → Type 0
EndsBy sys k = (stream : ℕ) (u : Trace) → k ≤ received u → IsEnd (sys.measure u (receive stream))

module _ (sys : System) (stream : ℕ) where
  abbrev round_result : ℕ → Trace → Answer ℕ → Result (Option (Unit {0})) × Trace
  round_result n t (done got) =
      if got == 0 then (ok (some tt), t) else console_rounds sys n stream t
  round_result n t (failed e) = (err (wrap (lit "unable to receive console output") e), t)

  abbrev asked : Trace → Trace
  asked t = measured (receive stream) (sys.measure t (receive stream)) ∷ t

  -- One round of the loop.
  round_step :
      (n : ℕ) (t : Trace)
      → console_rounds sys (suc n) stream t
        ≡ round_result n (asked t) (sys.measure t (receive stream))
  unfolding console_rounds retry context measure pure ◌>>=◌
  round_step n t = by_answer (sys.measure t (receive stream)) (asked t)
    where
      by_answer :
          (r : Answer ℕ) (u : Trace)
          → continue
              (λ got. if got == 0 then pure (some tt) else console_rounds sys n stream)
              (wrapped (lit "unable to receive console output") (given r))
              u
            ≡ round_result n u r
      by_answer (done got) u = by_test (got == 0) u
        where
          by_test :
              (b : Bool) (u : Trace)
              → (if b then pure (some tt) else console_rounds sys n stream) u
                ≡ (if b then (ok (some tt), u) else console_rounds sys n stream u)
          by_test true u = refl
          by_test false u = refl
      by_answer (failed e) u = refl

  -- Enough rounds give the same result, which is none of exhaustion.
  abbrev Settled : ℕ → ℕ → Trace → Type 0
  Settled n m t =
      (console_rounds sys n stream t ≡ console_rounds sys m stream t)
      × ((o : Option (Unit {0})) → (console_rounds sys n stream t).0 ≡ ok o → o ≡ some tt)

  Settled-end :
      (n m : ℕ) (t : Trace) → IsEnd (sys.measure t (receive stream)) → Settled (suc n) (suc m) t
  Settled-end n m t h =
      rw (round_step n t, round_step m t) (by_answer (sys.measure t (receive stream)) (asked t) h)
    where
      by_answer :
          (r : Answer ℕ) (u : Trace)
          → IsEnd r
          → (round_result n u r ≡ round_result m u r)
            × ((o : Option (Unit {0})) → (round_result n u r).0 ≡ ok o → o ≡ some tt)
      by_answer (done got) u h = rw h (refl, λ o e. cc)
      by_answer (failed e) u h = (refl, λ o e. cc)

  Settled-round : (n m : ℕ) (t : Trace) → Settled n m (asked t) → Settled (suc n) (suc m) t
  Settled-round n m t h =
      rw (round_step n t, round_step m t) (by_answer (sys.measure t (receive stream)) (asked t) h)
    where
      by_test :
          (b : Bool) (u : Trace)
          → Settled n m u
          → let x = λ (k : ℕ). if b then (ok (some tt), u) else console_rounds sys k stream u in
            (x n ≡ x m) × ((o : Option (Unit {0})) → (x n).0 ≡ ok o → o ≡ some tt)
      by_test true u h = (refl, λ o e. cc)
      by_test false u h = h

      by_answer :
          (r : Answer ℕ) (u : Trace)
          → Settled n m u
          → (round_result n u r ≡ round_result m u r)
            × ((o : Option (Unit {0})) → (round_result n u r).0 ≡ ok o → o ≡ some tt)
      by_answer (done got) u h = by_test (got == 0) u h
      by_answer (failed e) u h = (refl, λ o e. cc)

  rounds-Settled :
      (end k n m : ℕ) (t : Trace)
      → EndsBy sys end
      → end ≤ received t + k
      → k < n
      → k < m
      → Settled n m t
  rounds-Settled end k zero m t ends h a b = absurd (omega (arith, a))
  rounds-Settled end k (suc n) zero t ends h a b = absurd (omega (arith, b))
  rounds-Settled end zero (suc n) (suc m) t ends h a b =
      Settled-end n m t (ends stream t (omega (arith, h)))
  rounds-Settled end (suc k) (suc n) (suc m) t ends h a b = Settled-round n m t (
      rounds-Settled end k n m (asked t) ends (omega (arith, h)) (omega (arith, a))
        (omega (arith, b)))

same_after :
    {A B : Type 0} (m : M A) (f g : A → M B) (t : Trace)
    → ((a : A) (u : Trace) → f a u ≡ g a u)
    → (m >>= f) t ≡ (m >>= g) t
unfolding ◌>>=◌
same_after {A} m f g t h = by_result (m t).0 (m t).1
  where
    by_result : (r : Result A) (u : Trace) → continue f r u ≡ continue g r u
    by_result (ok a) u = h a u
    by_result (err e) u = refl
    by_result panic u = refl

-- For every system in which each stream has ended after `k` questions for bytes, every VM, history and
-- two bounds above `k` on the rounds: the loop of `PrintConsole` ends within either bound, and with the
-- same result; in particular the bound is never what ends it.
pub print_console-ends :
    (sys : System) (v : BootcVmLinux) (k n m : ℕ) (t : Trace)
    → EndsBy sys k
    → k < n
    → k < m
    → (print_console sys n v t ≡ print_console sys m v t)
      × ((o : Option (Unit {0})) → (print_console sys n v t).0 ≡ ok o → o ≡ some tt)
unfolding print_console
print_console-ends sys v k n m t ends a b = (
  same_after _ _ _ t (λ conn u. same_after _ _ _ u (λ stream w. same_after _ _ _ w (λ d x.
      same_after _ _ _ x (λ _ y. (rounds-Settled sys stream k k n m y ends (omega arith) a b).0)))),
  (Returns-bind (λ o. o ≡ some tt) _
        λ conn. Returns-bind _ _ λ stream. Returns-bind _ _ λ d. Returns-bind _ _ λ _. record {
          at = λ y o e. (rounds-Settled sys stream k k n m y ends (omega arith) a b).1 o e;
        }).at
      t,
)
