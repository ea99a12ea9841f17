-- ===== src/World/Exec.antt =====
-- Programs that call out: from the history to a result and a longer history.
use podman_bootc.Base.{ℕ, zero, suc, [], Bool, List, ◌∷◌, Text, Option, none, some}
use podman_bootc.Go.Errors.{Error, Result, ok, err, panic, wrap}
use podman_bootc.World.Calls.{
  Action, sleep, Test, Read, Measure, Entry, ImageData, MachineConfig, UserData, user_found, Answer,
  done, failed, acted, tested, answered, measured, listed, listed_domains, inspected,
  machine_loaded, images_listed, ImageSummary, Trace, System,
}

abbrev pub M : Type 0 → Type 0
M A = Trace → Result A × Trace

module _ {A : Type 0} where
  unfoldable pub pure : A → M A
  pure a t = (ok a, t)

  unfoldable pub fail : Error → M A
  fail e t = (err e, t)

  unfoldable pub crash : M A
  crash t = (panic, t)

  unfoldable pub lift : Result A → M A
  lift r t = (r, t)

  -- A value of the program whose absence is a run-time panic: an index or slice out of range, a nil
  -- pointer.
  unfoldable pub or_crash : Option A → M A
  unfolding pure crash
  or_crash none = crash
  or_crash (some a) = pure a

  abbrev pub caught : Result A → Result (Result A)
  caught (ok a) = ok (ok a)
  caught (err e) = ok (err e)
  caught panic = panic

  -- The call, its error taken as a value: `x, err := f()` where the code goes on either way.
  unfoldable pub attempt : M A → M (Result A)
  attempt m t = let (r, t') = m t in (caught r, t')

  abbrev pub wrapped : Text → Result A → Result A
  wrapped p (ok a) = ok a
  wrapped p (err e) = err (wrap p e)
  wrapped p panic = panic

  -- `if err != nil { return fmt.Errorf("p: %w", err) }`.
  unfoldable pub context : Text → M A → M A
  context p m t = let (r, t') = m t in (wrapped p r, t')

  abbrev pub handled : (Error → M A) → Result A → M A
  handled h (ok a) t = (ok a, t)
  handled h (err e) t = h e t
  handled h panic t = (panic, t)

  -- `if err != nil { … }` where the branch does more than to return.
  unfoldable pub on_error : M A → (Error → M A) → M A
  on_error m h t = let (r, t') = m t in handled h r t'

  abbrev pub after_failure : M (Unit {0}) → Result A → M A
  after_failure d (ok a) t = (ok a, t)
  after_failure d (err e) t = (err e, (d t).1)
  after_failure d panic t = (panic, (d t).1)

  -- A deferred call that a flag switches off, where the flag is set just before the one successful
  -- return: `d` runs if `m` fails or panics.
  unfoldable pub on_failure : M (Unit {0}) → M A → M A
  on_failure d m t = let (r, t') = m t in after_failure d r t'

  abbrev pub unless_panicked : Result (Unit {0}) → Result A → Result A
  unless_panicked panic r = panic
  unless_panicked _ r = r

  -- `defer d()`: `d` runs whatever comes of `m`, and the result is that of `m` unless `d` panics. Each
  -- `d` of the code logs its own errors.
  unfoldable pub deferring : M (Unit {0}) → M A → M A
  deferring d m t = let (r, t') = m t in let (s, u) = d t' in (unless_panicked s r, u)

module _ {A B : Type 0} where
  abbrev pub continue : (A → M B) → Result A → M B
  continue f (ok a) t = f a t
  continue f (err e) t = (err e, t)
  continue f panic t = (panic, t)

  abbrev pub branched : (A → M B) → (Error → M B) → Result A → M B
  branched f g (ok a) t = f a t
  branched f g (err e) t = g e t
  branched f g panic t = (panic, t)

  -- `a, err := m()` and a test on `err` whose two branches go on differently.
  unfoldable pub branch : M A → (A → M B) → (Error → M B) → M B
  branch m f g t = let (r, t') = m t in branched f g r t'

  -- A test of a pointer against nil.
  unfoldable pub if_nil : Option A → M B → (A → M B) → M B
  if_nil none m f = m
  if_nil (some a) m f = f a

  infixl 5 ◌>>=◌
  unfoldable pub ◌>>=◌ : M A → (A → M B) → M B
  ◌>>=◌ m f t = let (r, t') = m t in continue f r t'

infixl 5 ◌>>◌
abbrev pub ◌>>◌ : {B : Type 0} → M (Unit {0}) → M B → M B
m >> k = m >>= λ _. k

-- `_ = f()`: any error is ignored.
unfoldable pub ignore : {A : Type 0} → M A → M (Unit {0})
unfolding attempt pure ◌>>=◌
ignore m = do _ ← attempt m; pure tt

module _ {B : Type 0} where
  -- A loop of at most `n` rounds: `body` is one round, given the rounds after it; `out` follows the
  -- last one.
  unfoldable pub retry : ℕ → M B → (M B → M B) → M B
  retry zero out body = out
  retry (suc n) out body = body (retry n out body)

  -- A loop over a list: `body` is the round of an element, given the rounds after it.
  unfoldable pub for_each : {A : Type 0} → List A → M B → (A → M B → M B) → M B
  for_each [] out body = out
  for_each (x ∷ xs) out body = body x (for_each xs out body)

abbrev pub given : {A : Type 0} → Answer A → Result A
given (done a) = ok a
given (failed e) = err e

-- The answer of a pure function of another package.
unfoldable pub answer : {A : Type 0} → Answer A → M A
answer a t = (given a, t)

-- The calls: each asks the system, and leaves its event in the history.
module _ (sys : System) where
  -- `time.Now()`, which cannot fail.
  unfoldable pub time_now : M ℕ
  time_now t = (ok (sys.clock t), t)

  unfoldable pub act : Action → M (Unit {0})
  act c t = let r = sys.act t c in (given r, acted c r ∷ t)

  unfoldable pub test : Test → M Bool
  test c t = let r = sys.test t c in (given r, tested c r ∷ t)

  unfoldable pub read : Read → M Text
  read c t = let r = sys.read t c in (given r, answered c r ∷ t)

  unfoldable pub measure : Measure → M ℕ
  measure c t = let r = sys.measure t c in (given r, measured c r ∷ t)

  unfoldable pub read_dir : Text → M (List Entry)
  read_dir p t = let r = sys.read_dir t p in (given r, listed p r ∷ t)

  unfoldable pub list_domains : ℕ → M (List ℕ)
  list_domains c t = let r = sys.list_domains t c in (given r, listed_domains c r ∷ t)

  unfoldable pub inspect_image : Text → M ImageData
  inspect_image n t = let r = sys.inspect_image t n in (given r, inspected n r ∷ t)

  unfoldable pub current_user : M UserData
  current_user t = let r = sys.current_user t in (given r, user_found r ∷ t)

  unfoldable pub load_machine : M MachineConfig
  load_machine t = let r = sys.load_machine t in (given r, machine_loaded r ∷ t)

  unfoldable pub list_images : Text → Text → M (List ImageSummary)
  list_images key value t =
      let r = sys.list_images t key value in (given r, images_listed key value r ∷ t)

  -- `time.Sleep`, in ms, which cannot fail: whatever the answer, the program goes on.
  unfoldable pub pause : ℕ → M (Unit {0})
  pause ms = ignore (act (sleep ms))
