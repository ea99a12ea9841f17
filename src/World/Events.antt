-- ===== src/World/Events.antt =====
-- Which events a program may add: one rule for each way to build a program.
use podman_bootc.Base.{
  ℕ, zero, suc, [], Bool, true, false, List, ◌∷◌, Text, Option, none, some, ◌≡◌, refl,
  if◌then◌else◌,
}
use podman_bootc.Go.Errors.{Error, Result, ok, err, panic}
use podman_bootc.World.Calls.{
  Action, sleep, Test, Read, Measure, Entry, Answer, Event, acted, tested, answered, measured,
  listed, listed_domains, inspected, machine_loaded, images_listed, ImageSummary, ImageData,
  MachineConfig, UserData, user_found, Trace, System,
}
use podman_bootc.World.Exec.{
  pause, retry, for_each, branch, branched, if_nil, handled, after_failure, on_failure, answer,
  time_now, M, pure, fail, crash, lift, or_crash, attempt, context, on_error, deferring, ◌>>=◌,
  continue, ignore, act, test, read, measure, read_dir, list_domains, inspect_image, current_user,
  load_machine, list_images,
}

-- A history that goes on from `t` by events that all meet `P`.
pub data Extends (P : Event → Type 0) (t : Trace) : Trace → Type 0 where
  same : Extends P t t
  more : {u : Trace} (e : Event) → P e → Extends P t u → Extends P t (e ∷ u)

pub Extends-trans :
    {P : Event → Type 0} {t u v : Trace} → Extends P t u → Extends P u v → Extends P t v
Extends-trans h same = h
Extends-trans h (more e p k) = more e p (Extends-trans h k)

pub Extends-mono :
    {P Q : Event → Type 0} {t u : Trace} → ((e : Event) → P e → Q e) → Extends P t u → Extends Q t u
Extends-mono f same = same
Extends-mono f (more e p k) = more e (f e p) (Extends-mono f k)

-- All that `m` does meets `P`, however it ends.
pub record Does {A : Type 0} (P : Event → Type 0) (m : M A) : Type 0 where
  pub on : (t : Trace) → Extends P t (m t).1

module _ {A : Type 0} {P : Event → Type 0} where
  pub Does-pure : (a : A) → Does P (pure a)
  unfolding pure
  Does-pure a = record { on = λ t. same }

  pub Does-fail : (e : Error) → Does P (fail {A = A} e)
  unfolding fail
  Does-fail e = record { on = λ t. same }

  pub Does-crash : Does P (crash {A = A})
  unfolding crash
  Does-crash = record { on = λ t. same }

  pub Does-lift : (r : Result A) → Does P (lift r)
  unfolding lift
  Does-lift r = record { on = λ t. same }

  pub Does-or_crash : (o : Option A) → Does P (or_crash o)
  unfolding or_crash
  Does-or_crash none = Does-crash
  Does-or_crash (some a) = Does-pure a

  pub Does-attempt : {m : M A} → Does P m → Does P (attempt m)
  unfolding attempt
  Does-attempt h = record { on = h.on }

  pub Does-context : (p : Text) {m : M A} → Does P m → Does P (context p m)
  unfolding context
  Does-context p h = record { on = h.on }

  pub Does-deferring : {d : M (Unit {0})} {m : M A} → Does P d → Does P m → Does P (deferring d m)
  unfolding deferring
  Does-deferring hd hm = record { on = λ t. Extends-trans (hm.on t) (hd.on _) }

  Does-handled :
      (h : Error → M A) (r : Result A) (t : Trace)
      → ((e : Error) → Does P (h e))
      → Extends P t (handled h r t).1
  Does-handled h (ok a) t hh = same
  Does-handled h (err e) t hh = (hh e).on t
  Does-handled h panic t hh = same

  pub Does-on_error :
      {m : M A} {h : Error → M A} → Does P m → ((e : Error) → Does P (h e)) → Does P (on_error m h)
  unfolding on_error
  Does-on_error {m} {h} hm hh = record {
    on = λ t. Extends-trans (hm.on t) (Does-handled h (m t).0 (m t).1 hh);
  }

  Does-after_failure :
      (d : M (Unit {0})) (r : Result A) (t : Trace) → Does P d → Extends P t (after_failure d r t).1
  Does-after_failure d (ok a) t hd = same
  Does-after_failure d (err e) t hd = hd.on t
  Does-after_failure d panic t hd = hd.on t

  pub Does-on_failure : {d : M (Unit {0})} {m : M A} → Does P d → Does P m → Does P (on_failure d m)
  unfolding on_failure
  Does-on_failure {d} {m} hd hm = record {
    on = λ t. Extends-trans (hm.on t) (Does-after_failure d (m t).0 (m t).1 hd);
  }

  pub Does-answer : (a : Answer A) → Does P (answer a)
  unfolding answer
  Does-answer a = record { on = λ t. same }

  pub Does-if : (b : Bool) {m n : M A} → Does P m → Does P n → Does P (if b then m else n)
  Does-if true hm hn = hm
  Does-if false hm hn = hn

module _ {A B : Type 0} {P : Event → Type 0} where
  Does-continue :
      (f : A → M B) (r : Result A) (t : Trace)
      → ((a : A) → Does P (f a))
      → Extends P t (continue f r t).1
  Does-continue f (ok a) t hf = (hf a).on t
  Does-continue f (err e) t hf = same
  Does-continue f panic t hf = same

  pub Does-bind : {m : M A} {f : A → M B} → Does P m → ((a : A) → Does P (f a)) → Does P (m >>= f)
  unfolding ◌>>=◌
  Does-bind {m} {f} hm hf = record {
    on = λ t. Extends-trans (hm.on t) (Does-continue f (m t).0 (m t).1 hf);
  }

-- A value of the program, known where it is there.
pub Does-some :
    {A B : Type 0} {P : Event → Type 0} (o : Option A) (f : A → M B)
    → ((a : A) → o ≡ some a → Does P (f a))
    → Does P (or_crash o >>= f)
unfolding or_crash crash pure ◌>>=◌
Does-some none f h = record { on = λ t. same }
Does-some (some a) f h = record { on = (h a refl).on }

module _ {A B : Type 0} {P : Event → Type 0} where
  Does-branched :
      (f : A → M B) (g : Error → M B) (r : Result A) (t : Trace)
      → ((a : A) → Does P (f a))
      → ((e : Error) → Does P (g e))
      → Extends P t (branched f g r t).1
  Does-branched f g (ok a) t hf hg = (hf a).on t
  Does-branched f g (err e) t hf hg = (hg e).on t
  Does-branched f g panic t hf hg = same

  pub Does-branch :
      {m : M A} {f : A → M B} {g : Error → M B}
      → Does P m
      → ((a : A) → Does P (f a))
      → ((e : Error) → Does P (g e))
      → Does P (branch m f g)
  unfolding branch
  Does-branch {m} {f} {g} hm hf hg = record {
    on = λ t. Extends-trans (hm.on t) (Does-branched f g (m t).0 (m t).1 hf hg);
  }

  pub Does-if_nil :
      (o : Option A) {m : M B} {f : A → M B}
      → Does P m
      → ((a : A) → Does P (f a))
      → Does P (if_nil o m f)
  unfolding if_nil
  Does-if_nil none hm hf = hm
  Does-if_nil (some a) hm hf = hf a

-- Events that meet one predicate meet a weaker one.
pub Does-mono :
    {A : Type 0} {P Q : Event → Type 0} {m : M A} → ((e : Event) → P e → Q e) → Does P m → Does Q m
Does-mono f h = record { on = λ t. Extends-mono f (h.on t) }

pub Does-retry :
    {B : Type 0} {P : Event → Type 0} (n : ℕ) {out : M B} {body : M B → M B}
    → Does P out
    → ((m : M B) → Does P m → Does P (body m))
    → Does P (retry n out body)
unfolding retry
Does-retry zero ho hb = ho
Does-retry (suc n) ho hb = hb _ (Does-retry n ho hb)

pub Does-for_each :
    {A B : Type 0} {P : Event → Type 0} (xs : List A) {out : M B} {body : A → M B → M B}
    → Does P out
    → ((x : A) (m : M B) → Does P m → Does P (body x m))
    → Does P (for_each xs out body)
unfolding for_each
Does-for_each [] ho hb = ho
Does-for_each (x ∷ xs) ho hb = hb x _ (Does-for_each xs ho hb)

pub Does-ignore : {A : Type 0} {P : Event → Type 0} {m : M A} → Does P m → Does P (ignore m)
unfolding ignore
Does-ignore h = Does-bind (Does-attempt h) (λ _. Does-pure tt)

module _ {P : Event → Type 0} (sys : System) where
  pub Does-time_now : Does P (time_now sys)
  unfolding time_now
  Does-time_now = record { on = λ t. same }

  pub Does-act : (c : Action) → ((r : Answer (Unit {0})) → P (acted c r)) → Does P (act sys c)
  unfolding act
  Does-act c h = record { on = λ t. more _ (h _) same }

  pub Does-pause :
      (ms : ℕ) → ((r : Answer (Unit {0})) → P (acted (sleep ms) r)) → Does P (pause sys ms)
  unfolding pause
  Does-pause ms h = Does-ignore (Does-act (sleep ms) h)

  pub Does-test : (c : Test) → ((r : Answer Bool) → P (tested c r)) → Does P (test sys c)
  unfolding test
  Does-test c h = record { on = λ t. more _ (h _) same }

  pub Does-read : (c : Read) → ((r : Answer Text) → P (answered c r)) → Does P (read sys c)
  unfolding read
  Does-read c h = record { on = λ t. more _ (h _) same }

  pub Does-measure : (c : Measure) → ((r : Answer ℕ) → P (measured c r)) → Does P (measure sys c)
  unfolding measure
  Does-measure c h = record { on = λ t. more _ (h _) same }

  pub Does-read_dir :
      (p : Text) → ((r : Answer (List Entry)) → P (listed p r)) → Does P (read_dir sys p)
  unfolding read_dir
  Does-read_dir p h = record { on = λ t. more _ (h _) same }

  pub Does-list_domains :
      (c : ℕ) → ((r : Answer (List ℕ)) → P (listed_domains c r)) → Does P (list_domains sys c)
  unfolding list_domains
  Does-list_domains c h = record { on = λ t. more _ (h _) same }

  pub Does-inspect_image :
      (n : Text) → ((r : Answer ImageData) → P (inspected n r)) → Does P (inspect_image sys n)
  unfolding inspect_image
  Does-inspect_image n h = record { on = λ t. more _ (h _) same }

  pub Does-current_user : ((r : Answer UserData) → P (user_found r)) → Does P (current_user sys)
  unfolding current_user
  Does-current_user h = record { on = λ t. more _ (h _) same }

  pub Does-load_machine :
      ((r : Answer MachineConfig) → P (machine_loaded r)) → Does P (load_machine sys)
  unfolding load_machine
  Does-load_machine h = record { on = λ t. more _ (h _) same }

  pub Does-list_images :
      (k v : Text)
      → ((r : Answer (List ImageSummary)) → P (images_listed k v r))
      → Does P (list_images sys k v)
  unfolding list_images
  Does-list_images k v h = record { on = λ t. more _ (h _) same }

pub ruleset does_rules = (
  Does-pure, Does-fail, Does-crash, Does-lift, Does-or_crash, Does-attempt, Does-context, Does-if,
  Does-deferring, Does-on_error, Does-on_failure, Does-answer, Does-time_now, Does-bind,
  Does-branch, Does-if_nil, Does-retry, Does-for_each, Does-ignore, Does-act, Does-pause, Does-test,
  Does-read, Does-measure, Does-read_dir, Does-list_domains, Does-inspect_image, Does-current_user,
  Does-load_machine, Does-list_images,
)
