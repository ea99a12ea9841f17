-- ===== src/World/Settles.antt =====
-- What follows a lock that was just taken: it keeps the lock for its result, or gives it back.
use podman_bootc.Base.{
  ℕ, ◌+◌, ◌-◌, Bool, true, false, not, ◌≡◌, refl, ◌∙◌, ◌∷◌, ap, Text, text_eq, if◌then◌else◌, arith,
  Option, none, some, is_some, ◌≢◌,
}
use podman_bootc.Go.Errors.{Error, Result, ok, err, panic}
use podman_bootc.World.Calls.{System, Test, Answer, done, failed, tested, Trace}
use podman_bootc.World.Exec.{
  M, given, wrapped, deferring, pure, fail, context, or_crash, ◌>>=◌, ◌>>◌, continue, on_error,
  handled, test,
}
use podman_bootc.World.Events.{Does}
use podman_bootc.World.Locks.{one_if, held, held-tested, file_of, IsNeutral, held-Extends}
use podman_bootc.World.Brackets.{Balances, Acquires, GivesBack, gained}
use podman_bootc.World.Returns.{Returns}

-- The locks on `l` after a part that began with the lock on `p` held.
abbrev pub kept : {A : Type 0} → Text → Text → Result A → ℕ → ℕ
kept p l (ok a) n = n
kept p l _ n = n - one_if (text_eq p l)

abbrev pub Returned : {A : Type 0} → Result A → Type 0
Returned (ok a) = Unit
Returned (err e) = ⊥
Returned panic = ⊥

-- `m` neither fails nor panics.
pub record Succeeds {A : Type 0} (m : M A) : Type 0 where
  pub at : (t : Trace) → Returned (m t).0

-- `m` returns a value that stands for the lock on `p` and keeps it, or fails and gives it back.
pub record Settles {A : Type 0} (p : Text) (path : A → Text) (m : M A) : Type 0 where
  pub at : (l : Text) (t : Trace) → held l (m t).1 ≡ kept p l (m t).0 (held l t)
  pub for_path : (t : Trace) (a : A) → (m t).0 ≡ ok a → path a ≡ p

module _ {A B : Type 0} where
  Acquires-settled :
      (path : A → Text) (path' : B → Text) (f : A → M B) (r : Result A) (l : Text) (t : Trace)
      (n : ℕ)
      → ((a : A) → r ≡ ok a → Settles (path a) path' (f a))
      → held l t ≡ n + gained path l r
      → held l (continue f r t).1 ≡ n + gained path' l (continue f r t).0
  Acquires-settled path path' f (ok a) l t n h e =
      let s = h a refl in settled (f a t).0 (s.at l t) (s.for_path t)
    where
      settled :
          (r : Result B)
          → held l (f a t).1 ≡ kept (path a) l r (held l t)
          → ((b : B) → r ≡ ok b → path' b ≡ path a)
          → held l (f a t).1 ≡ n + gained path' l r
      settled (ok b) k same_path = rw (same_path b refl) (omega arith)
      settled (err x) k same_path = omega arith
      settled panic k same_path = omega arith
  Acquires-settled path path' f (err x) l t n h e = e
  Acquires-settled path path' f panic l t n h e = e

  -- A lock that is taken, and then settled, is acquired.
  pub Acquires-then :
      (path : A → Text) (path' : B → Text) {m : M A} {f : A → M B}
      → Acquires path m
      → ((a : A) (t : Trace) → (m t).0 ≡ ok a → Settles (path a) path' (f a))
      → Acquires path' (m >>= f)
  unfolding ◌>>=◌
  Acquires-then path path' {m} {f} hm hf = record {
    at = λ l t.
        Acquires-settled path path' f (m t).0 l (m t).1 (held l t) (λ a e. hf a t e) (hm.at l t);
  }

  Acquires-returned :
      (path : B → Text) (f : A → M B) (r : Result A) (l : Text) (t : Trace)
      → ((a : A) → r ≡ ok a → Acquires path (f a))
      → held l (continue f r t).1 ≡ held l t + gained path l (continue f r t).0
  Acquires-returned path f (ok a) l t h = (h a refl).at l t
  Acquires-returned path f (err e) l t h = ground arith
  Acquires-returned path f panic l t h = ground arith

  -- As `Acquires-bind`, where what the first part returns meets `Q`.
  pub Acquires-bind-Returns :
      (path : B → Text) (Q : A → Type 0) {m : M A} {f : A → M B}
      → Balances m
      → Returns Q m
      → ((a : A) → Q a → Acquires path (f a))
      → Acquires path (m >>= f)
  unfolding ◌>>=◌
  Acquires-bind-Returns path Q {m} {f} hm hq hf = record {
    at = λ l t.
        Acquires-returned path f (m t).0 l (m t).1 (λ a e. hf a (hq.at t a e))
        ∙ ap (λ (n : ℕ). n + gained path l (continue f (m t).0 (m t).1).0) (hm.at l t);
  }

module _ {A : Type 0} where
  pub Settles-pure : (p : Text) (path : A → Text) (a : A) → path a ≡ p → Settles p path (pure a)
  unfolding pure
  Settles-pure p path a h = record { at = λ l t. refl; for_path = λ t b e. ground (arith, h) }

  -- The failing branches: the lock is given back, and an error returned.
  pub Settles-release :
      (p : Text) (path : A → Text) {d : M (Unit {0})} (e : Error)
      → GivesBack p d
      → ((t : Trace) → (d t).0 ≡ ok tt)
      → Settles p path (d >> fail e)
  unfolding ◌>>=◌ fail
  Settles-release p path {d} e hd hok = record {
    at = λ l t. rw (hok t) (hd.at l t);
    for_path = λ t a eq. cc (rw (hok t) at eq);
  }

  Settles-handled :
      (p : Text) (path : A → Text) (h : Error → M A) (r : Result A) (l : Text) (t : Trace) (n : ℕ)
      → ((e : Error) → Settles p path (h e))
      → r ≢ panic
      → held l t ≡ n
      → held l (handled h r t).1 ≡ kept p l (handled h r t).0 n
  Settles-handled p path h (ok a) l t n hh np e = e
  Settles-handled p path h (err x) l t n hh np e = rw (← e) ((hh x).at l t)
  Settles-handled p path h panic l t n hh np e = absurd (np refl)

  handled_path :
      (p : Text) (path : A → Text) (h : Error → M A) (r : Result A) (t : Trace) (a : A)
      → ((e : Error) → Settles p path (h e))
      → ((b : A) → r ≡ ok b → path b ≡ p)
      → (handled h r t).0 ≡ ok a
      → path a ≡ p
  handled_path p path h (ok b) t a hh hr e = hr a e
  handled_path p path h (err x) t a hh hr e = (hh x).for_path t a e
  handled_path p path h panic t a hh hr e = hr a e

  -- A part that takes no lock, and whose errors are handled by a release.
  pub Settles-on_error :
      (p : Text) (path : A → Text) {m : M A} {h : Error → M A}
      → Does IsNeutral m
      → Returns (λ a. path a ≡ p) m
      → ((t : Trace) → (m t).0 ≢ panic)
      → ((e : Error) → Settles p path (h e))
      → Settles p path (on_error m h)
  unfolding on_error
  Settles-on_error p path {m} {h} hm hp np hh = record {
    at = λ l t.
        Settles-handled p path h (m t).0 l (m t).1 (held l t) hh (np t) (held-Extends l (hm.on t));
    for_path = λ t a. handled_path p path h (m t).0 (m t).1 a hh (hp.at t);
  }

module _ {A B : Type 0} where
  Settles-continue :
      (p : Text) (path : B → Text) (f : A → M B) (r : Result A) (l : Text) (t : Trace) (n : ℕ)
      → ((a : A) → Settles p path (f a))
      → Returned r
      → held l t ≡ n
      → held l (continue f r t).1 ≡ kept p l (continue f r t).0 n
  Settles-continue p path f (ok a) l t n h s e = rw (← e) ((h a).at l t)
  Settles-continue p path f (err x) l t n h s e = absurd s
  Settles-continue p path f panic l t n h s e = absurd s

  continue_path :
      (p : Text) (path : B → Text) (f : A → M B) (r : Result A) (t : Trace) (b : B)
      → ((a : A) → Settles p path (f a))
      → Returned r
      → (continue f r t).0 ≡ ok b
      → path b ≡ p
  continue_path p path f (ok a) t b h s e = (h a).for_path t b e
  continue_path p path f (err x) t b h s e = absurd s
  continue_path p path f panic t b h s e = absurd s

  pub Settles-bind :
      (p : Text) (path : B → Text) {m : M A} {f : A → M B}
      → Does IsNeutral m
      → Succeeds m
      → ((a : A) → Settles p path (f a))
      → Settles p path (m >>= f)
  unfolding ◌>>=◌
  Settles-bind p path {m} {f} hm hs hf = record {
    at = λ l t.
        Settles-continue p path f (m t).0 l (m t).1 (held l t) hf (hs.at t)
          (held-Extends l (hm.on t));
    for_path = λ t b. continue_path p path f (m t).0 (m t).1 b hf (hs.at t);
  }

pub Settles-if :
    {A : Type 0} (p : Text) (path : A → Text) (b : Bool) {m n : M A}
    → Settles p path m
    → Settles p path n
    → Settles p path (if b then m else n)
Settles-if p path true hm hn = hm
Settles-if p path false hm hn = hn

pub Succeeds-or_crash : {A : Type 0} (o : Option A) → is_some o ≡ true → Succeeds (or_crash o)
unfolding or_crash
Succeeds-or_crash none h = cc
Succeeds-or_crash (some a) h = record { at = λ t. tt }

-- A call that leaves the program never panics.
pub given-ne-panic : {A : Type 0} (r : Answer A) → given r ≢ panic
given-ne-panic (done a) e = cc
given-ne-panic (failed x) e = cc

module _ {A : Type 0} where
  -- What a try for a lock leads to.
  abbrev pub tried : Text → Error → M A → Answer Bool → M A
  tried p e f r = continue (λ locked. if not locked then fail e else f) (wrapped p (given r))

  tried-Acquires :
      (c : Test) (path : A → Text) (p : Text) (e : Error) (f : M A) (r : Answer Bool) (l : Text)
      (t : Trace)
      → Settles (file_of c) path f
      → held l (tried p e f r (tested c r ∷ t)).1
        ≡ held l t + gained path l (tried p e f r (tested c r ∷ t)).0
  unfolding fail
  tried-Acquires c path p e f (failed x) l t s = omega (arith, held-tested l c (failed x) t)
  tried-Acquires c path p e f (done false) l t s = omega (arith, held-tested l c (done false) t)
  tried-Acquires c path p e f (done true) l t s = cases (f u).0 (s.at l u) (s.for_path u)
    where
      u : Trace
      u = tested c (done true) ∷ t

      cases :
          (r : Result A)
          → held l (f u).1 ≡ kept (file_of c) l r (held l u)
          → ((a : A) → r ≡ ok a → path a ≡ file_of c)
          → held l (f u).1 ≡ held l t + gained path l r
      cases (ok a) k q = rw (q a refl) (omega (arith, held-tested l c (done true) t, k))
      cases (err x) k q = omega (arith, held-tested l c (done true) t, k)
      cases panic k q = omega (arith, held-tested l c (done true) t, k)

  -- A try, and what settles its lock, acquires the lock.
  pub Acquires-try :
      (sys : System) (c : Test) (path : A → Text) (p : Text) (e : Error) {f : M A}
      → Settles (file_of c) path f
      → Acquires path (context p (test sys c) >>= λ locked. if not locked then fail e else f)
  unfolding context test ◌>>=◌
  Acquires-try sys c path p e {f} s = record {
    at = λ l t. tried-Acquires c path p e f (sys.test t c) l t s;
  }

  tried-Balances :
      (c : Test) (p : Text) (e : Error) (f : M A) (r : Answer Bool) (l : Text) (t : Trace)
      → ((u : Trace) → held l (f u).1 ≡ held l u - one_if (text_eq (file_of c) l))
      → held l (tried p e f r (tested c r ∷ t)).1 ≡ held l t
  unfolding fail
  tried-Balances c p e f (failed x) l t s = omega (arith, held-tested l c (failed x) t)
  tried-Balances c p e f (done false) l t s = omega (arith, held-tested l c (done false) t)
  tried-Balances c p e f (done true) l t s =
      omega (arith, held-tested l c (done true) t, s (tested c (done true) ∷ t))

  -- A try, and a part that gives the lock back by a deferred call, leave the locks as they were.
  pub Balances-try :
      (sys : System) (c : Test) (p : Text) (e : Error) {d : M (Unit {0})} {f : M A}
      → GivesBack (file_of c) d
      → Does IsNeutral f
      → Balances (context p (test sys c) >>= λ locked. if not locked then fail e else deferring d f)
  unfolding context test ◌>>=◌ deferring
  Balances-try sys c p e {d} {f} hd hf = record {
    at = λ l t. tried-Balances c p e (deferring d f) (sys.test t c) l t (λ u.
        hd.at l _ ∙ ap (λ (n : ℕ). n - one_if (text_eq (file_of c) l)) (held-Extends l (hf.on u)));
  }
