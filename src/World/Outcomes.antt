-- ===== src/World/Outcomes.antt =====
-- What holds when a program ends, with whatever result, in terms of what held when it began.
use podman_bootc.Base.{◌≡◌, Text, Option, some}
use podman_bootc.Go.Errors.{Error, Result, ok, err, panic}
use podman_bootc.World.Calls.{Event, Trace}
use podman_bootc.World.Exec.{
  M, pure, fail, or_crash, attempt, caught, context, wrapped, on_error, handled, deferring,
  unless_panicked, ◌>>=◌, continue, ignore,
}
use podman_bootc.World.Ensures.{Ensures}
use podman_bootc.World.Events.{Does, Extends}

-- From a history that meets `R`, the result of `m` and the history then meet `Q`.
pub record Ends {A : Type 0} (R : Trace → Type 0) (m : M A) (Q : Result A → Trace → Type 0)
    : Type 0 where
  pub at : (t : Trace) → R t → Q (m t).0 (m t).1

module _ {A : Type 0} where
  pub Ends-pure :
      {R : Trace → Type 0} (Q : Result A → Trace → Type 0) (a : A)
      → ((t : Trace) → R t → Q (ok a) t)
      → Ends R (pure a) Q
  unfolding pure
  Ends-pure Q a h = record { at = h }

  pub Ends-fail :
      {R : Trace → Type 0} (Q : Result A → Trace → Type 0) (e : Error)
      → ((t : Trace) → R t → Q (err e) t)
      → Ends R (fail e) Q
  unfolding fail
  Ends-fail Q e h = record { at = h }

  -- What is asked of the history alone, and is kept by each event.
  pub Ends-Does :
      {R : Trace → Type 0} (P : Event → Type 0) {m : M A}
      → ((t u : Trace) → Extends P t u → R t → R u)
      → Does P m
      → Ends R m (λ _. R)
  Ends-Does P {m} keeps h = record { at = λ t. keeps t (m t).1 (h.on t) }

  pub Ends-mono :
      {R : Trace → Type 0} {Q S : Result A → Trace → Type 0} {m : M A}
      → ((r : Result A) (t : Trace) → Q r t → S r t)
      → Ends R m Q
      → Ends R m S
  Ends-mono f h = record { at = λ t r. f _ _ (h.at t r) }

  pub Ends-context :
      {R : Trace → Type 0} (S : Result A → Trace → Type 0) (p : Text) {m : M A}
      → Ends R m (λ r. S (wrapped p r))
      → Ends R (context p m) S
  unfolding context
  Ends-context S p h = record { at = h.at }

  Ended-handled :
      (Q S : Result A → Trace → Type 0) (h : Error → M A) (r : Result A) (t : Trace)
      → ((a : A) (u : Trace) → Q (ok a) u → S (ok a) u)
      → ((e : Error) → Ends (Q (err e)) (h e) S)
      → ((u : Trace) → Q panic u → S panic u)
      → Q r t
      → S (handled h r t).0 (handled h r t).1
  Ended-handled Q S h (ok a) t ha he hp q = ha a t q
  Ended-handled Q S h (err e) t ha he hp q = (he e).at t q
  Ended-handled Q S h panic t ha he hp q = hp t q

  pub Ends-on_error :
      {R : Trace → Type 0} (Q S : Result A → Trace → Type 0) {m : M A} {h : Error → M A}
      → Ends R m Q
      → ((a : A) (u : Trace) → Q (ok a) u → S (ok a) u)
      → ((e : Error) → Ends (Q (err e)) (h e) S)
      → ((u : Trace) → Q panic u → S panic u)
      → Ends R (on_error m h) S
  unfolding on_error
  Ends-on_error Q S {m} {h} hm ha he hp = record {
    at = λ t r. Ended-handled Q S h (m t).0 (m t).1 ha he hp (hm.at t r);
  }

  pub Ends-deferring :
      {R : Trace → Type 0} (Q S : Result A → Trace → Type 0) {d : M (Unit {0})} {m : M A}
      → Ends R m Q
      → ((r : Result A) → Ends (Q r) d (λ s. S (unless_panicked s r)))
      → Ends R (deferring d m) S
  unfolding deferring
  Ends-deferring Q S {d} {m} hm hd = record { at = λ t r. (hd (m t).0).at (m t).1 (hm.at t r) }

module _ {A B : Type 0} where
  Ended-continue :
      (Q : Result A → Trace → Type 0) (S : Result B → Trace → Type 0) (f : A → M B) (r : Result A)
      (t : Trace)
      → ((a : A) → Ends (Q (ok a)) (f a) S)
      → ((e : Error) (u : Trace) → Q (err e) u → S (err e) u)
      → ((u : Trace) → Q panic u → S panic u)
      → Q r t
      → S (continue f r t).0 (continue f r t).1
  Ended-continue Q S f (ok a) t hf he hp q = (hf a).at t q
  Ended-continue Q S f (err e) t hf he hp q = he e t q
  Ended-continue Q S f panic t hf he hp q = hp t q

  pub Ends-bind :
      {R : Trace → Type 0} (Q : Result A → Trace → Type 0) (S : Result B → Trace → Type 0) {m : M A}
      {f : A → M B}
      → Ends R m Q
      → ((a : A) → Ends (Q (ok a)) (f a) S)
      → ((e : Error) (u : Trace) → Q (err e) u → S (err e) u)
      → ((u : Trace) → Q panic u → S panic u)
      → Ends R (m >>= f) S
  unfolding ◌>>=◌
  Ends-bind Q S {m} {f} hm hf he hp = record {
    at = λ t r. Ended-continue Q S f (m t).0 (m t).1 hf he hp (hm.at t r);
  }

Ended-ignore :
    {A : Type 0} (Q : Trace → Type 0) (r : Result A) (t : Trace)
    → Q t
    → Q (continue (λ _. pure tt) (caught r) t).1
unfolding pure
Ended-ignore Q (ok a) t q = q
Ended-ignore Q (err e) t q = q
Ended-ignore Q panic t q = q

-- What holds at the end holds when a value is returned.
pub Ends-Ensures :
    {A : Type 0} {R : Trace → Type 0} (Q : Result A → Trace → Type 0) {m : M A}
    → Ends R m Q
    → Ensures R m (λ a. Q (ok a))
Ends-Ensures Q h = record { at = λ t r a e. rw (← e) (h.at t r) }

-- A value that is known to be there.
pub Ends-or_crash :
    {A B : Type 0} {R : Trace → Type 0} (S : Result B → Trace → Type 0) (o : Option A) (a : A)
    (f : A → M B)
    → o ≡ some a
    → Ends R (f a) S
    → Ends R (or_crash o >>= f) S
unfolding or_crash pure ◌>>=◌
Ends-or_crash S o a f e h = record { at = λ t r. rw e (h.at t r) }

pub Ends-ignore :
    {R : Trace → Type 0} {A : Type 0} (Q : Trace → Type 0) {m : M A}
    → Ends R m (λ _. Q)
    → Ends R (ignore m) (λ _. Q)
unfolding ignore attempt ◌>>=◌
Ends-ignore Q {m} h = record { at = λ t r. Ended-ignore Q (m t).0 (m t).1 (h.at t r) }
