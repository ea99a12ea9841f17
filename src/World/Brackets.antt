-- ===== src/World/Brackets.antt =====
-- Programs that leave the locks as they found them, that take one lock, and that give one back.
use podman_bootc.Base.{
  ℕ, ◌+◌, ◌-◌, Bool, true, false, ◌≡◌, refl, ◌∙◌, ap, List, [], ◌∷◌, Text, text_eq, if◌then◌else◌,
  arith,
}
use podman_bootc.Go.Errors.{Error, Result, ok, err, panic}
use podman_bootc.World.Calls.{System, Action, acted, unlock, Trace}
use podman_bootc.World.Exec.{
  M, branch, branched, for_each, handled, wrapped, fail, attempt, ignore, context, deferring, ◌>>=◌,
  ◌>>◌, continue, on_error, act,
}
use podman_bootc.World.Events.{Does, Does-pure}
use podman_bootc.World.Returns.{Returns}
use podman_bootc.World.Locks.{
  one_if, held-unlock, held_neutral, IsNoUnlock, held, IsNeutral, held-Extends,
}

-- `m` holds the same locks at its end as before, however it ends.
pub record Balances {A : Type 0} (m : M A) : Type 0 where
  pub at : (l : Text) (t : Trace) → held l (m t).1 ≡ held l t

abbrev pub gained : {A : Type 0} → (A → Text) → Text → Result A → ℕ
gained path l (ok a) = one_if (text_eq (path a) l)
gained path l _ = 0

-- `m` takes the lock on `path a` if it returns `a`, and no lock if it fails.
pub record Acquires {A : Type 0} (path : A → Text) (m : M A) : Type 0 where
  pub at : (l : Text) (t : Trace) → held l (m t).1 ≡ held l t + gained path l (m t).0

-- `d` gives the lock on `p` back once.
pub record GivesBack (p : Text) (d : M (Unit {0})) : Type 0 where
  pub at : (l : Text) (t : Trace) → held l (d t).1 ≡ held l t - one_if (text_eq p l)

module _ {A : Type 0} where
  pub Balances-Does : {m : M A} → Does IsNeutral m → Balances m
  Balances-Does h = record { at = λ l t. held-Extends l (h.on t) }

  pub Balances-fail : (e : Error) → Balances (fail {A = A} e)
  unfolding fail
  Balances-fail e = record { at = λ l t. refl }

  pub Balances-context : (p : Text) {m : M A} → Balances m → Balances (context p m)
  unfolding context
  Balances-context p h = record { at = h.at }

  Acquires-handled :
      (path : A → Text) (h : Error → M A) (r : Result A) (l : Text) (t : Trace) (n : ℕ)
      → held l t ≡ n + gained path l r
      → ((e : Error) → Acquires path (h e))
      → held l (handled h r t).1 ≡ n + gained path l (handled h r t).0
  Acquires-handled path h (ok a) l t n e hh = e
  Acquires-handled path h (err x) l t n e hh = omega (arith, (hh x).at l t)
  Acquires-handled path h panic l t n e hh = e

  pub Acquires-on_error :
      (path : A → Text) {m : M A} {h : Error → M A}
      → Acquires path m
      → ((e : Error) → Acquires path (h e))
      → Acquires path (on_error m h)
  unfolding on_error
  Acquires-on_error path {m} {h} hm hh = record {
    at = λ l t. Acquires-handled path h (m t).0 l (m t).1 (held l t) (hm.at l t) hh;
  }

  Acquires-wrapped :
      (path : A → Text) (p : Text) (r : Result A) (l : Text)
      → gained path l (wrapped p r) ≡ gained path l r
  Acquires-wrapped path p (ok a) l = refl
  Acquires-wrapped path p (err e) l = refl
  Acquires-wrapped path p panic l = refl

  pub Acquires-context :
      (path : A → Text) (p : Text) {m : M A} → Acquires path m → Acquires path (context p m)
  unfolding context
  Acquires-context path p {m} h = record {
    at = λ l t. omega (arith, h.at l t, Acquires-wrapped path p (m t).0 l);
  }

  pub Acquires-fail : (path : A → Text) (e : Error) → Acquires path (fail e)
  unfolding fail
  Acquires-fail path e = record { at = λ l t. omega arith }

  pub Acquires-if :
      (path : A → Text) (b : Bool) {m n : M A}
      → Acquires path m
      → Acquires path n
      → Acquires path (if b then m else n)
  Acquires-if path true hm hn = hm
  Acquires-if path false hm hn = hn

  pub Balances-if : (b : Bool) {m n : M A} → Balances m → Balances n → Balances (if b then m else n)
  Balances-if true hm hn = hm
  Balances-if false hm hn = hn

module _ {A B : Type 0} where
  Balances-continue :
      (f : A → M B) (r : Result A) (l : Text) (t : Trace)
      → ((a : A) → Balances (f a))
      → held l (continue f r t).1 ≡ held l t
  Balances-continue f (ok a) l t h = (h a).at l t
  Balances-continue f (err e) l t h = refl
  Balances-continue f panic l t h = refl

  pub Balances-bind :
      {m : M A} {f : A → M B} → Balances m → ((a : A) → Balances (f a)) → Balances (m >>= f)
  unfolding ◌>>=◌
  Balances-bind {m} {f} hm hf = record {
    at = λ l t. Balances-continue f (m t).0 l (m t).1 hf ∙ hm.at l t;
  }

  Balances-branched :
      (f : A → M B) (g : Error → M B) (r : Result A) (l : Text) (t : Trace)
      → ((a : A) → Balances (f a))
      → ((e : Error) → Balances (g e))
      → held l (branched f g r t).1 ≡ held l t
  Balances-branched f g (ok a) l t hf hg = (hf a).at l t
  Balances-branched f g (err e) l t hf hg = (hg e).at l t
  Balances-branched f g panic l t hf hg = refl

  pub Balances-branch :
      {m : M A} {f : A → M B} {g : Error → M B}
      → Balances m
      → ((a : A) → Balances (f a))
      → ((e : Error) → Balances (g e))
      → Balances (branch m f g)
  unfolding branch
  Balances-branch {m} {f} {g} hm hf hg = record {
    at = λ l t. Balances-branched f g (m t).0 l (m t).1 hf hg ∙ hm.at l t;
  }

  pub Balances-for_each :
      (xs : List A) {out : M B} {body : A → M B → M B}
      → Balances out
      → ((x : A) (m : M B) → Balances m → Balances (body x m))
      → Balances (for_each xs out body)
  unfolding for_each
  Balances-for_each [] ho hb = ho
  Balances-for_each (x ∷ xs) ho hb = hb x _ (Balances-for_each xs ho hb)

  Acquires-continue :
      (path : B → Text) (f : A → M B) (r : Result A) (l : Text) (t : Trace)
      → ((a : A) → Acquires path (f a))
      → held l (continue f r t).1 ≡ held l t + gained path l (continue f r t).0
  Acquires-continue path f (ok a) l t h = (h a).at l t
  Acquires-continue path f (err e) l t h = ground arith
  Acquires-continue path f panic l t h = ground arith

  pub Acquires-bind :
      (path : B → Text) {m : M A} {f : A → M B}
      → Balances m
      → ((a : A) → Acquires path (f a))
      → Acquires path (m >>= f)
  unfolding ◌>>=◌
  Acquires-bind path {m} {f} hm hf = record {
    at = λ l t.
        Acquires-continue path f (m t).0 l (m t).1 hf
        ∙ ap (λ (n : ℕ). n + gained path l (continue f (m t).0 (m t).1).0) (hm.at l t);
  }

  bracket_continue :
      (path : A → Text) (Q : A → Type 0) (f : A → M B) (r : Result A) (l : Text) (t : Trace) (n : ℕ)
      → ((a : A) → r ≡ ok a → Q a)
      → ((a : A) → Q a → held l (f a t).1 ≡ held l t - one_if (text_eq (path a) l))
      → held l t ≡ n + gained path l r
      → held l (continue f r t).1 ≡ n
  bracket_continue path Q f (ok a) l t n q h e = omega (arith, h a (q a refl))
  bracket_continue path Q f (err x) l t n q h e = omega arith
  bracket_continue path Q f panic l t n q h e = omega arith

  -- A lock that is taken first, and given back by a deferred call, is given back on every path.
  pub Balances-bracket :
      (path : A → Text) (Q : A → Type 0) {m : M A} {f : A → M B} {d : A → M (Unit {0})}
      → Acquires path m
      → Returns Q m
      → ((a : A) → Q a → GivesBack (path a) (d a))
      → ((a : A) → Does IsNeutral (f a))
      → Balances (m >>= λ a. deferring (d a) (f a))
  unfolding ◌>>=◌ deferring
  Balances-bracket path Q {m} {f} {d} hm hq hd hf = record {
    at = λ l t.
        bracket_continue path Q (λ a. deferring (d a) (f a)) (m t).0 l (m t).1 (held l t) (hq.at t)
          (λ a q.
            (hd a q).at l _
            ∙ ap (λ (n : ℕ). n - one_if (text_eq (path a) l)) (held-Extends l ((hf a).on (m t).1)))
          (hm.at l t);
  }

pub Balances-attempt : {A : Type 0} {m : M A} → Balances m → Balances (attempt m)
unfolding attempt
Balances-attempt h = record { at = h.at }

pub Balances-ignore : {A : Type 0} {m : M A} → Balances m → Balances (ignore m)
unfolding ignore
Balances-ignore h = Balances-bind (Balances-attempt h) (λ _. Balances-Does (Does-pure tt))

module _ (sys : System) where
  pub GivesBack-unlock : (p : Text) → GivesBack p (ignore (act sys (unlock p)))
  unfolding ignore act
  GivesBack-unlock p = record {
    at = λ l t. ground (arith, held-unlock l p (sys.act t (unlock p)) t);
  }

  pub GivesBack-after :
      {p : Text} (c : Action) {d : M (Unit {0})}
      → IsNoUnlock c
      → GivesBack p d
      → GivesBack p (ignore (act sys c) >> d)
  unfolding ◌>>=◌ ignore act
  GivesBack-after {p} c {d} h hd = record {
    at = λ l t.
        ground
          (arith, hd.at l (acted c (sys.act t c) ∷ t), held_neutral l (acted c (sys.act t c)) t h);
  }
