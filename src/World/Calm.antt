-- ===== src/World/Calm.antt =====
-- Programs that never panic: one rule for each way to build a program.
use podman_bootc.Base.{
  ℕ, zero, suc, Bool, true, false, ◌≡◌, refl, ◌≢◌, List, [], ◌∷◌, Text, Option, none, some, is_some,
  arith, if◌then◌else◌,
}
use podman_bootc.Go.Errors.{Error, Result, ok, err, panic}
use podman_bootc.World.Returns.{Returns}
use podman_bootc.World.Calls.{
  Action, sleep, Test, Read, Measure, Answer, done, failed, Trace, System,
}
use podman_bootc.World.Exec.{
  M, pure, fail, or_crash, answer, time_now, pause, context, wrapped, on_error, handled, attempt,
  caught, ignore, deferring, unless_panicked, branch, branched, if_nil, for_each, ◌>>=◌, continue,
  given, act, test, read, measure, read_dir, list_domains, current_user, lift, retry, on_failure,
  after_failure, inspect_image, load_machine,
}

abbrev pub IsCalm : {A : Type 0} → Result A → Type 0
IsCalm panic = ⊥
IsCalm _ = Unit

-- `m` ends with a value or an error.
pub record Calm {A : Type 0} (m : M A) : Type 0 where
  pub at : (t : Trace) → IsCalm (m t).0

given-IsCalm : {A : Type 0} (r : Answer A) → IsCalm (given r)
given-IsCalm (done a) = tt
given-IsCalm (failed e) = tt

module _ {A : Type 0} where
  pub Calm-ne-panic : {m : M A} → Calm m → (t : Trace) → (m t).0 ≢ panic
  Calm-ne-panic {m} h t e = by_result (m t).0 (h.at t) e
    where
      by_result : (r : Result A) → IsCalm r → r ≡ panic → ⊥
      by_result (ok a) c e = cc
      by_result (err x) c e = cc
      by_result panic c e = c

  pub of_ne_panic : {m : M A} → ((t : Trace) → (m t).0 ≢ panic) → Calm m
  of_ne_panic {m} h = record { at = λ t. by_result (m t).0 (h t) }
    where
      by_result : (r : Result A) → r ≢ panic → IsCalm r
      by_result (ok a) n = tt
      by_result (err x) n = tt
      by_result panic n = n refl

  pub Calm-pure : (a : A) → Calm (pure a)
  unfolding pure
  Calm-pure a = record { at = λ t. tt }

  pub Calm-fail : (e : Error) → Calm (fail {A = A} e)
  unfolding fail
  Calm-fail e = record { at = λ t. tt }

  pub Calm-answer : (r : Answer A) → Calm (answer r)
  unfolding answer
  Calm-answer r = record { at = λ t. given-IsCalm r }

  wrapped-IsCalm : (p : Text) (r : Result A) → IsCalm r → IsCalm (wrapped p r)
  wrapped-IsCalm p (ok a) c = tt
  wrapped-IsCalm p (err e) c = tt
  wrapped-IsCalm p panic c = c

  pub Calm-context : (p : Text) {m : M A} → Calm m → Calm (context p m)
  unfolding context
  Calm-context p {m} h = record { at = λ t. wrapped-IsCalm p (m t).0 (h.at t) }

  handled-Calm :
      (h : Error → M A) (r : Result A) (t : Trace)
      → IsCalm r
      → ((e : Error) → Calm (h e))
      → IsCalm (handled h r t).0
  handled-Calm h (ok a) t c hh = tt
  handled-Calm h (err e) t c hh = (hh e).at t
  handled-Calm h panic t c hh = c

  pub Calm-on_error :
      {m : M A} {h : Error → M A} → Calm m → ((e : Error) → Calm (h e)) → Calm (on_error m h)
  unfolding on_error
  Calm-on_error {m} {h} hm hh = record { at = λ t. handled-Calm h (m t).0 (m t).1 (hm.at t) hh }

  caught-IsCalm : (r : Result A) → IsCalm r → IsCalm (caught r)
  caught-IsCalm (ok a) c = tt
  caught-IsCalm (err e) c = tt
  caught-IsCalm panic c = c

  pub Calm-attempt : {m : M A} → Calm m → Calm (attempt m)
  unfolding attempt
  Calm-attempt {m} h = record { at = λ t. caught-IsCalm (m t).0 (h.at t) }

  unless-IsCalm :
      (s : Result (Unit {0})) (r : Result A) → IsCalm s → IsCalm r → IsCalm (unless_panicked s r)
  unless-IsCalm (ok x) r cs cr = cr
  unless-IsCalm (err e) r cs cr = cr
  unless-IsCalm panic r cs cr = cs

  pub Calm-deferring : {d : M (Unit {0})} {m : M A} → Calm d → Calm m → Calm (deferring d m)
  unfolding deferring
  Calm-deferring {d} {m} hd hm = record {
    at = λ t. unless-IsCalm (d (m t).1).0 (m t).0 (hd.at (m t).1) (hm.at t);
  }

  after_failure-Calm :
      (d : M (Unit {0})) (r : Result A) (t : Trace) → IsCalm r → IsCalm (after_failure d r t).0
  after_failure-Calm d (ok a) t c = tt
  after_failure-Calm d (err e) t c = tt
  after_failure-Calm d panic t c = c

  pub Calm-on_failure : (d : M (Unit {0})) {m : M A} → Calm m → Calm (on_failure d m)
  unfolding on_failure
  Calm-on_failure d {m} h = record { at = λ t. after_failure-Calm d (m t).0 (m t).1 (h.at t) }

  pub Calm-or_crash : (o : Option A) → is_some o ≡ true → Calm (or_crash o)
  unfolding or_crash
  Calm-or_crash none h = absurd (ground arith)
  Calm-or_crash (some a) h = Calm-pure a

  pub Calm-lift : (r : Result A) → IsCalm r → Calm (lift r)
  unfolding lift
  Calm-lift r h = record { at = λ t. h }

  pub Calm-retry :
      (n : ℕ) {out : M A} {body : M A → M A}
      → Calm out
      → ((m : M A) → Calm m → Calm (body m))
      → Calm (retry n out body)
  unfolding retry
  Calm-retry zero ho hb = ho
  Calm-retry (suc n) ho hb = hb _ (Calm-retry n ho hb)

  pub Calm-if : (b : Bool) {m n : M A} → Calm m → Calm n → Calm (if b then m else n)
  Calm-if true hm hn = hm
  Calm-if false hm hn = hn

module _ {A B : Type 0} where
  continue-Calm :
      (P : A → Type 0) (f : A → M B) (r : Result A) (t : Trace)
      → IsCalm r
      → ((a : A) → r ≡ ok a → P a)
      → ((a : A) → P a → Calm (f a))
      → IsCalm (continue f r t).0
  continue-Calm P f (ok a) t c p hf = (hf a (p a refl)).at t
  continue-Calm P f (err e) t c p hf = tt
  continue-Calm P f panic t c p hf = c

  -- The second part may rely on the value that the first returns.
  pub Calm-then :
      (P : A → Type 0) {m : M A} {f : A → M B}
      → Calm m
      → Returns P m
      → ((a : A) → P a → Calm (f a))
      → Calm (m >>= f)
  unfolding ◌>>=◌
  Calm-then P {m} {f} hm hp hf = record {
    at = λ t. continue-Calm P f (m t).0 (m t).1 (hm.at t) (hp.at t) hf;
  }

  pub Calm-bind : {m : M A} {f : A → M B} → Calm m → ((a : A) → Calm (f a)) → Calm (m >>= f)
  Calm-bind hm hf = Calm-then (λ _. Unit {0}) hm (record { at = λ t a e. tt }) (λ a _. hf a)

  -- A value that is there.
  pub Calm-some : (a : A) (f : A → M B) → Calm (f a) → Calm (or_crash (some a) >>= f)
  unfolding or_crash pure ◌>>=◌
  Calm-some a f h = record { at = h.at }

  branched-Calm :
      (f : A → M B) (g : Error → M B) (r : Result A) (t : Trace)
      → IsCalm r
      → ((a : A) → Calm (f a))
      → ((e : Error) → Calm (g e))
      → IsCalm (branched f g r t).0
  branched-Calm f g (ok a) t c hf hg = (hf a).at t
  branched-Calm f g (err e) t c hf hg = (hg e).at t
  branched-Calm f g panic t c hf hg = c

  pub Calm-branch :
      {m : M A} {f : A → M B} {g : Error → M B}
      → Calm m
      → ((a : A) → Calm (f a))
      → ((e : Error) → Calm (g e))
      → Calm (branch m f g)
  unfolding branch
  Calm-branch {m} {f} {g} hm hf hg = record {
    at = λ t. branched-Calm f g (m t).0 (m t).1 (hm.at t) hf hg;
  }

  pub Calm-if_nil :
      (o : Option A) {m : M B} {f : A → M B} → Calm m → ((a : A) → Calm (f a)) → Calm (if_nil o m f)
  unfolding if_nil
  Calm-if_nil none hm hf = hm
  Calm-if_nil (some a) hm hf = hf a

  -- The second part may rely on the value being there.
  pub Calm-if_some :
      (o : Option A) {m : M B} {f : A → M B}
      → Calm m
      → (is_some o ≡ true → (a : A) → Calm (f a))
      → Calm (if_nil o m f)
  unfolding if_nil
  Calm-if_some none hm hf = hm
  Calm-if_some (some a) hm hf = hf refl a

  pub Calm-for_each :
      (xs : List A) {out : M B} {body : A → M B → M B}
      → Calm out
      → ((x : A) (m : M B) → Calm m → Calm (body x m))
      → Calm (for_each xs out body)
  unfolding for_each
  Calm-for_each [] ho hb = ho
  Calm-for_each (x ∷ xs) ho hb = hb x _ (Calm-for_each xs ho hb)

pub Calm-ignore : {A : Type 0} {m : M A} → Calm m → Calm (ignore m)
unfolding ignore
Calm-ignore h = Calm-bind (Calm-attempt h) (λ _. Calm-pure tt)

module _ (sys : System) where
  pub Calm-time_now : Calm (time_now sys)
  unfolding time_now
  Calm-time_now = record { at = λ t. tt }

  pub Calm-act : (c : Action) → Calm (act sys c)
  unfolding act
  Calm-act c = record { at = λ t. given-IsCalm (sys.act t c) }

  pub Calm-pause : (ms : ℕ) → Calm (pause sys ms)
  unfolding pause
  Calm-pause ms = Calm-ignore (Calm-act (sleep ms))

  pub Calm-test : (c : Test) → Calm (test sys c)
  unfolding test
  Calm-test c = record { at = λ t. given-IsCalm (sys.test t c) }

  pub Calm-read : (c : Read) → Calm (read sys c)
  unfolding read
  Calm-read c = record { at = λ t. given-IsCalm (sys.read t c) }

  pub Calm-measure : (c : Measure) → Calm (measure sys c)
  unfolding measure
  Calm-measure c = record { at = λ t. given-IsCalm (sys.measure t c) }

  pub Calm-read_dir : (p : Text) → Calm (read_dir sys p)
  unfolding read_dir
  Calm-read_dir p = record { at = λ t. given-IsCalm (sys.read_dir t p) }

  pub Calm-list_domains : (c : ℕ) → Calm (list_domains sys c)
  unfolding list_domains
  Calm-list_domains c = record { at = λ t. given-IsCalm (sys.list_domains t c) }

  pub Calm-current_user : Calm (current_user sys)
  unfolding current_user
  Calm-current_user = record { at = λ t. given-IsCalm (sys.current_user t) }

  pub Calm-inspect_image : (name : Text) → Calm (inspect_image sys name)
  unfolding inspect_image
  Calm-inspect_image name = record { at = λ t. given-IsCalm (sys.inspect_image t name) }

  pub Calm-load_machine : Calm (load_machine sys)
  unfolding load_machine
  Calm-load_machine = record { at = λ t. given-IsCalm (sys.load_machine t) }

pub ruleset calm_rules = (
  Calm-pure, Calm-fail, Calm-answer, Calm-context, Calm-on_error, Calm-attempt, Calm-deferring,
  Calm-if, Calm-bind, Calm-branch, Calm-if_nil, Calm-for_each, Calm-ignore, Calm-time_now, Calm-act,
  Calm-pause, Calm-test, Calm-read, Calm-measure, Calm-read_dir, Calm-list_domains,
  Calm-current_user, Calm-on_failure, Calm-retry, Calm-inspect_image, Calm-load_machine,
)
