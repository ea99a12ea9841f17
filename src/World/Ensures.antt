-- ===== src/World/Ensures.antt =====
-- What holds when a program returns, in terms of what held when it began.
use podman_bootc.Base.{
  ◌≤◌, Bool, true, false, ◌≡◌, refl, ◌∷◌, Text, Option, none, some, arith, if◌then◌else◌,
}
use podman_bootc.Go.Errors.{Error, Result, ok, err, panic}
use podman_bootc.World.Calls.{System, Trace, Answer, done, failed, tested, try_lock}
use podman_bootc.World.Exec.{
  M, if_nil, given, pure, fail, crash, or_crash, context, wrapped, on_error, handled, continue,
  ◌>>=◌, test,
}
use podman_bootc.World.Events.{Does}
use podman_bootc.World.Returns.{Returns}
use podman_bootc.World.Locks.{
  held_exclusive, held_exclusive-Extends, held_exclusive-granted, IsNeutral,
}

-- From a history that meets `R`, a value that `m` returns and the history then meet `Q`.
pub record Ensures {A : Type 0} (R : Trace → Type 0) (m : M A) (Q : A → Trace → Type 0)
    : Type 0 where
  pub at : (t : Trace) → R t → (a : A) → (m t).0 ≡ ok a → Q a (m t).1

-- Nothing is asked of the history.
abbrev pub Any : Trace → Type 0
Any t = Unit

abbrev pub Holds : Text → Trace → Type 0
Holds l t = 1 ≤ held_exclusive l t

module _ {A : Type 0} (R : Trace → Type 0) (Q : A → Trace → Type 0) where
  pub Ensures-fail : (e : Error) → Ensures R (fail e) Q
  unfolding fail
  Ensures-fail e = record { at = λ t r a eq. cc }

  ok_of : (a : A) (t : Trace) → Q a t → (b : A) → ok a ≡ ok b → Q b t
  ok_of a t q b eq = rw (← cc_ok a b eq) q
    where
      cc_ok : (a b : A) → ok a ≡ ok b → a ≡ b
      cc_ok a b e = cc

  pub Ensures-pure : (a : A) → ((t : Trace) → R t → Q a t) → Ensures R (pure a) Q
  unfolding pure
  Ensures-pure a h = record { at = λ t r b eq. ok_of a t (h t r) b eq }

  pub Ensures-if :
      (b : Bool) {m n : M A} → Ensures R m Q → Ensures R n Q → Ensures R (if b then m else n) Q
  Ensures-if true hm hn = hm
  Ensures-if false hm hn = hn

  pub Ensures-if_nil :
      {B : Type 0} (o : Option B) {m : M A} {f : B → M A}
      → Ensures R m Q
      → ((b : B) → Ensures R (f b) Q)
      → Ensures R (if_nil o m f) Q
  unfolding if_nil
  Ensures-if_nil none hm hf = hm
  Ensures-if_nil (some b) hm hf = hf b

  -- A pointer that is nil.
  pub Ensures-nil :
      {B : Type 0} (o : Option B) {m : M A} (f : B → M A)
      → o ≡ none
      → Ensures R m Q
      → Ensures R (if_nil o m f) Q
  unfolding if_nil
  Ensures-nil none f h hm = hm
  Ensures-nil (some b) f h hm = absurd cc

  Ensured-wrapped :
      (p : Text) (r : Result A) (t : Trace) (a : A)
      → ((b : A) → r ≡ ok b → Q b t)
      → wrapped p r ≡ ok a
      → Q a t
  Ensured-wrapped p (ok b) t a h e = h a e
  Ensured-wrapped p (err x) t a h e = cc
  Ensured-wrapped p panic t a h e = cc

  pub Ensures-context : (p : Text) {m : M A} → Ensures R m Q → Ensures R (context p m) Q
  unfolding context
  Ensures-context p {m} h = record { at = λ t r a. Ensured-wrapped p (m t).0 (m t).1 a (h.at t r) }

  Ensured-handled :
      (h : Error → M A) (r : Result A) (t : Trace) (a : A)
      → ((b : A) → r ≡ ok b → Q b t)
      → ((e : Error) → Ensures Any (h e) Q)
      → (handled h r t).0 ≡ ok a
      → Q a (handled h r t).1
  Ensured-handled h (ok b) t a q hh e = q a e
  Ensured-handled h (err x) t a q hh e = (hh x).at t tt a e
  Ensured-handled h panic t a q hh e = cc

  pub Ensures-on_error :
      {m : M A} {h : Error → M A}
      → Ensures R m Q
      → ((e : Error) → Ensures Any (h e) Q)
      → Ensures R (on_error m h) Q
  unfolding on_error
  Ensures-on_error {m} {h} hm hh = record {
    at = λ t r a. Ensured-handled h (m t).0 (m t).1 a (hm.at t r) hh;
  }

module _ {A B : Type 0} where
  Ensured-continue :
      (Q : A → Trace → Type 0) (S : B → Trace → Type 0) (f : A → M B) (r : Result A) (t : Trace)
      (b : B)
      → ((a : A) → r ≡ ok a → Q a t)
      → ((a : A) → Ensures (Q a) (f a) S)
      → (continue f r t).0 ≡ ok b
      → S b (continue f r t).1
  Ensured-continue Q S f (ok a) t b q hf e = (hf a).at t (q a refl) b e
  Ensured-continue Q S f (err x) t b q hf e = cc
  Ensured-continue Q S f panic t b q hf e = cc

  pub Ensures-bind :
      (R : Trace → Type 0) (Q : A → Trace → Type 0) (S : B → Trace → Type 0) {m : M A} {f : A → M B}
      → Ensures R m Q
      → ((a : A) → Ensures (Q a) (f a) S)
      → Ensures R (m >>= f) S
  unfolding ◌>>=◌
  Ensures-bind R Q S {m} {f} hm hf = record {
    at = λ t r b. Ensured-continue Q S f (m t).0 (m t).1 b (hm.at t r) hf;
  }

pub Ensures-any : {A : Type 0} (R : Trace → Type 0) (m : M A) → Ensures R m (λ _ _. Unit {0})
Ensures-any R m = record { at = λ t r a e. tt }

-- A value of the program that is there.
pub Ensures-or_crash :
    {A : Type 0} (R : Trace → Type 0) (o : Option A)
    → Ensures R (or_crash o) (λ a t. (o ≡ some a) × R t)
unfolding or_crash pure crash
Ensures-or_crash R none = record { at = λ t r a e. cc }
Ensures-or_crash R (some b) = record { at = λ t r a e. (cc, r) }

-- A part that may rely on less.
pub Ensures-weaken :
    {A : Type 0} {R S : Trace → Type 0} {Q : A → Trace → Type 0} {m : M A}
    → ((t : Trace) → S t → R t)
    → Ensures R m Q
    → Ensures S m Q
Ensures-weaken f h = record { at = λ t s. h.at t (f t s) }

-- A fact about what went before is at hand.
pub Ensures-given :
    {A : Type 0} (P : Type 0) {R : Trace → Type 0} {Q : A → Trace → Type 0} {m : M A}
    → (P → Ensures R m Q)
    → Ensures (λ t. P × R t) m Q
Ensures-given P h = record { at = λ t s. (h s.0).at t s.1 }

-- What is returned, and what holds then, together.
pub Ensures-and :
    {A : Type 0} {R : Trace → Type 0} (P : A → Type 0) {Q : A → Trace → Type 0} {m : M A}
    → Returns P m
    → Ensures R m Q
    → Ensures R m (λ a t. P a × Q a t)
Ensures-and P hp hq = record { at = λ t r a e. (hp.at t a e, hq.at t r a e) }

-- What touches no lock leaves an exclusive lock held.
pub Ensures-Holds :
    {A : Type 0} (l : Text) {m : M A} → Does IsNeutral m → Ensures (Holds l) m (λ _. Holds l)
Ensures-Holds l h = record { at = λ t r a e. rw (held_exclusive-Extends l (h.on t)) r }

tried_held :
    (l p : Text) (r : Answer Bool) (t : Trace) (b : Bool)
    → wrapped p (given r) ≡ ok b
    → b ≡ true
    → Holds l (tested (try_lock l) r ∷ t)
tried_held l p (failed x) t b e k = cc
tried_held l p (done true) t b e k = omega (arith, held_exclusive-granted l t)
tried_held l p (done false) t b e k = cc

-- A try for the exclusive lock that answers true.
pub Ensures-try :
    (sys : System) (R : Trace → Type 0) (l p : Text)
    → Ensures R (context p (test sys (try_lock l))) (λ b t. b ≡ true → Holds l t)
unfolding context test
Ensures-try sys R l p = record {
  at = λ t r b e k. tried_held l p (sys.test t (try_lock l)) t b e k;
}
