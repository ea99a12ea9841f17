-- ===== src/World/Returns.antt =====
-- What a program returns, whatever the history.
use podman_bootc.Base.{Bool, true, false, ◌≡◌, refl, Text, if◌then◌else◌}
use mathlib.Core.Path.{subst}
use podman_bootc.Go.Errors.{Error, Result, ok, err, panic}
use podman_bootc.World.Calls.{Trace}
use podman_bootc.World.Exec.{M, handled, wrapped, pure, fail, context, ◌>>=◌, continue, on_error}

-- Whatever `m` returns meets `Q`.
pub record Returns {A : Type 0} (Q : A → Type 0) (m : M A) : Type 0 where
  pub at : (t : Trace) (a : A) → (m t).0 ≡ ok a → Q a

module _ {A : Type 0} where
  Returned-wrapped :
      (Q : A → Type 0) (p : Text) (r : Result A) (a : A)
      → ((b : A) → r ≡ ok b → Q b)
      → wrapped p r ≡ ok a
      → Q a
  Returned-wrapped Q p (ok b) a h e = h a e
  Returned-wrapped Q p (err x) a h e = cc
  Returned-wrapped Q p panic a h e = cc

  pub Returns-context :
      (Q : A → Type 0) (p : Text) {m : M A} → Returns Q m → Returns Q (context p m)
  unfolding context
  Returns-context Q p {m} h = record { at = λ t a. Returned-wrapped Q p (m t).0 a (h.at t) }

  pub Returns-pure : (Q : A → Type 0) (a : A) → Q a → Returns Q (pure a)
  unfolding pure
  Returns-pure Q a h = record { at = λ t x eq. ok_same h x eq }
    where
      ok_same : Q a → (x : A) → ok a ≡ ok x → Q x
      ok_same q x eq = subst Q (cc) q

  pub Returns-if_pure :
      (Q : A → Type 0) (b : Bool) (e : Error) (a : A)
      → (b ≡ false → Q a)
      → Returns Q (if b then fail e else pure a)
  unfolding fail
  Returns-if_pure Q true e a h = record { at = λ t x eq. cc }
  Returns-if_pure Q false e a h = Returns-pure Q a (h refl)

  pub Returns-fail : (Q : A → Type 0) (e : Error) → Returns Q (fail e)
  unfolding fail
  Returns-fail Q e = record { at = λ t a eq. cc }

  pub Returns-if :
      (Q : A → Type 0) (b : Bool) {m n : M A}
      → Returns Q m
      → Returns Q n
      → Returns Q (if b then m else n)
  Returns-if Q true hm hn = hm
  Returns-if Q false hm hn = hn

  Returns-handled :
      (Q : A → Type 0) (h : Error → M A) (r : Result A) (t : Trace) (a : A)
      → ((b : A) → r ≡ ok b → Q b)
      → ((e : Error) → Returns Q (h e))
      → (handled h r t).0 ≡ ok a
      → Q a
  Returns-handled Q h (ok b) t a q hh e = q a e
  Returns-handled Q h (err x) t a q hh e = (hh x).at t a e
  Returns-handled Q h panic t a q hh e = q a e

  pub Returns-on_error :
      (Q : A → Type 0) {m : M A} {h : Error → M A}
      → Returns Q m
      → ((e : Error) → Returns Q (h e))
      → Returns Q (on_error m h)
  unfolding on_error
  Returns-on_error Q {m} {h} hm hh = record {
    at = λ t a. Returns-handled Q h (m t).0 (m t).1 a (hm.at t) hh;
  }

module _ {A B : Type 0} where
  Returns-continue :
      (Q : B → Type 0) (f : A → M B) (r : Result A) (t : Trace) (b : B)
      → ((a : A) → Returns Q (f a))
      → (continue f r t).0 ≡ ok b
      → Q b
  Returns-continue Q f (ok a) t b h e = (h a).at t b e
  Returns-continue Q f (err x) t b h e = cc
  Returns-continue Q f panic t b h e = cc

  pub Returns-bind :
      (Q : B → Type 0) (m : M A) {f : A → M B} → ((a : A) → Returns Q (f a)) → Returns Q (m >>= f)
  unfolding ◌>>=◌
  Returns-bind Q m {f} hf = record { at = λ t b. Returns-continue Q f (m t).0 (m t).1 b hf }

  Returned-then :
      (P : A → Type 0) (Q : B → Type 0) (f : A → M B) (r : Result A) (t : Trace) (b : B)
      → ((a : A) → r ≡ ok a → P a)
      → ((a : A) → P a → Returns Q (f a))
      → (continue f r t).0 ≡ ok b
      → Q b
  Returned-then P Q f (ok a) t b p h e = (h a (p a refl)).at t b e
  Returned-then P Q f (err x) t b p h e = cc
  Returned-then P Q f panic t b p h e = cc

  -- The second part may rely on what the first returns.
  pub Returns-then :
      {P : A → Type 0} (Q : B → Type 0) {m : M A} {f : A → M B}
      → Returns P m
      → ((a : A) → P a → Returns Q (f a))
      → Returns Q (m >>= f)
  unfolding ◌>>=◌
  Returns-then {P} Q {m} {f} hp hf = record {
    at = λ t b. Returned-then P Q f (m t).0 (m t).1 b (hp.at t) hf;
  }
