-- ===== src/World/Judged.antt =====
-- Events that are judged by the history before them: rules for programs all of whose events pass.
use podman_bootc.Base.{Bool, true, false, ◌≡◌, refl, ◌∷◌, List, [], Text, if◌then◌else◌}
use podman_bootc.Go.Errors.{Error, Result, ok, err, panic}
use podman_bootc.World.Calls.{Event, Trace}
use podman_bootc.World.Exec.{
  M, for_each, ignore, attempt, pure, context, on_error, handled, continue, ◌>>=◌, deferring,
}
use podman_bootc.World.Events.{Extends, same, more, Does}
use podman_bootc.World.Ensures.{Ensures, Any, Ensures-any}

-- A history that goes on from `t` by events that each meet `P` at the history before them.
pub data ExtendsBy (P : Trace → Event → Type 0) (t : Trace) : Trace → Type 0 where
  start : ExtendsBy P t t
  next : {u : Trace} (e : Event) → P u e → ExtendsBy P t u → ExtendsBy P t (e ∷ u)

pub ExtendsBy-trans :
    {P : Trace → Event → Type 0} {t u v : Trace}
    → ExtendsBy P t u
    → ExtendsBy P u v
    → ExtendsBy P t v
ExtendsBy-trans h start = h
ExtendsBy-trans h (next e p k) = next e p (ExtendsBy-trans h k)

pub ExtendsBy-Extends :
    {P : Event → Type 0} {Q : Trace → Event → Type 0} {t u : Trace}
    → ((v : Trace) (e : Event) → P e → Q v e)
    → Extends P t u
    → ExtendsBy Q t u
ExtendsBy-Extends f same = start
ExtendsBy-Extends f (more e p k) = next e (f _ e p) (ExtendsBy-Extends f k)

-- From a history that meets `R`, each event of `m` meets `P` at the history before it.
pub record DoesBy {A : Type 0} (R : Trace → Type 0) (P : Trace → Event → Type 0) (m : M A)
    : Type 0 where
  pub on : (t : Trace) → R t → ExtendsBy P t (m t).1

module _ {A : Type 0} {P : Trace → Event → Type 0} where
  pub DoesBy-Does :
      (Q : Event → Type 0) (R : Trace → Type 0) {m : M A}
      → ((v : Trace) (e : Event) → Q e → P v e)
      → Does Q m
      → DoesBy R P m
  DoesBy-Does Q R f h = record { on = λ t r. ExtendsBy-Extends f (h.on t) }

  pub DoesBy-if :
      {R : Trace → Type 0} (b : Bool) {m n : M A}
      → DoesBy R P m
      → DoesBy R P n
      → DoesBy R P (if b then m else n)
  DoesBy-if true hm hn = hm
  DoesBy-if false hm hn = hn

  Extended-handled :
      (h : Error → M A) (r : Result A) (t : Trace)
      → ((e : Error) → DoesBy Any P (h e))
      → ExtendsBy P t (handled h r t).1
  Extended-handled h (ok a) t hh = start
  Extended-handled h (err e) t hh = (hh e).on t tt
  Extended-handled h panic t hh = start

  pub DoesBy-on_error :
      {R : Trace → Type 0} {m : M A} {h : Error → M A}
      → DoesBy R P m
      → ((e : Error) → DoesBy Any P (h e))
      → DoesBy R P (on_error m h)
  unfolding on_error
  DoesBy-on_error {m} {h} hm hh = record {
    on = λ t r. ExtendsBy-trans (hm.on t r) (Extended-handled h (m t).0 (m t).1 hh);
  }

  pub DoesBy-context :
      {R : Trace → Type 0} (p : Text) {m : M A} → DoesBy R P m → DoesBy R P (context p m)
  unfolding context
  DoesBy-context p h = record { on = h.on }

  pub DoesBy-deferring :
      {R : Trace → Type 0} {d : M (Unit {0})} {m : M A}
      → DoesBy R P m
      → DoesBy Any P d
      → DoesBy R P (deferring d m)
  unfolding deferring
  DoesBy-deferring hm hd = record { on = λ t r. ExtendsBy-trans (hm.on t r) (hd.on _ tt) }

module _ {A B : Type 0} {P : Trace → Event → Type 0} where
  Extended-continue :
      (Q : A → Trace → Type 0) (f : A → M B) (r : Result A) (t : Trace)
      → ((a : A) → r ≡ ok a → Q a t)
      → ((a : A) → DoesBy (Q a) P (f a))
      → ExtendsBy P t (continue f r t).1
  Extended-continue Q f (ok a) t q hf = (hf a).on t (q a refl)
  Extended-continue Q f (err e) t q hf = start
  Extended-continue Q f panic t q hf = start

  -- The second part may rely on what the first ensures.
  pub DoesBy-bind :
      (R : Trace → Type 0) (Q : A → Trace → Type 0) {m : M A} {f : A → M B}
      → DoesBy R P m
      → Ensures R m Q
      → ((a : A) → DoesBy (Q a) P (f a))
      → DoesBy R P (m >>= f)
  unfolding ◌>>=◌
  DoesBy-bind R Q {m} {f} hm he hf = record {
    on = λ t r. ExtendsBy-trans (hm.on t r) (Extended-continue Q f (m t).0 (m t).1 (he.at t r) hf);
  }

  -- The second part relies on nothing.
  pub DoesBy-first :
      {m : M A} {f : A → M B}
      → DoesBy Any P m
      → ((a : A) → DoesBy Any P (f a))
      → DoesBy Any P (m >>= f)
  DoesBy-first hm hf = DoesBy-bind Any (λ _. Any) hm (Ensures-any Any _) hf

  pub DoesBy-for_each :
      (xs : List A) {out : M B} {body : A → M B → M B}
      → DoesBy Any P out
      → ((x : A) (m : M B) → DoesBy Any P m → DoesBy Any P (body x m))
      → DoesBy Any P (for_each xs out body)
  unfolding for_each
  DoesBy-for_each [] ho hb = ho
  DoesBy-for_each (x ∷ xs) ho hb = hb x _ (DoesBy-for_each xs ho hb)

pub DoesBy-pure : {A : Type 0} {P : Trace → Event → Type 0} (a : A) → DoesBy Any P (pure a)
unfolding pure
DoesBy-pure a = record { on = λ t r. start }

DoesBy-attempt :
    {A : Type 0} {P : Trace → Event → Type 0} {m : M A} → DoesBy Any P m → DoesBy Any P (attempt m)
unfolding attempt
DoesBy-attempt h = record { on = h.on }

pub DoesBy-ignore :
    {A : Type 0} {P : Trace → Event → Type 0} {m : M A} → DoesBy Any P m → DoesBy Any P (ignore m)
unfolding ignore
DoesBy-ignore h = DoesBy-first (DoesBy-attempt h) (λ _. DoesBy-pure tt)

-- What each event keeps, each event finds.
pub ExtendsBy-kept :
    (R : Trace → Type 0) {Q : Event → Type 0} {P : Trace → Event → Type 0} {t u : Trace}
    → ((v : Trace) (e : Event) → Q e → R v → R (e ∷ v))
    → ((v : Trace) (e : Event) → Q e → R v → P v e)
    → R t
    → Extends Q t u
    → R u × ExtendsBy P t u
ExtendsBy-kept R keeps f h same = (h, start)
ExtendsBy-kept R keeps f h (more e q k) =
    let (r, x) = ExtendsBy-kept R keeps f h k in (keeps _ e q r, next e (f _ e q r) x)
