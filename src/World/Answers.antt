-- ===== src/World/Answers.antt =====
-- What a call, or a program built round one, ensures of the history: the event of a call that returned
-- is the last one.
use podman_bootc.Base.{◌≡◌, refl, ◌∷◌}
use podman_bootc.Go.Errors.{Error, Result, ok, err, panic}
use podman_bootc.World.Calls.{
  System, Event, Trace, Action, Read, Measure, Answer, done, failed, acted, answered, measured,
}
use podman_bootc.World.Ensures.{Ensures, Any}
use podman_bootc.World.Judged.{DoesBy, ExtendsBy, start, next, ExtendsBy-trans}
use podman_bootc.World.Exec.{
  M, act, read, measure, answer, given, branch, branched, on_failure, after_failure,
}

module _ {A : Type 0} where
  -- An answer that gives a value is `done`.
  pub given_done : (r : Answer A) (a : A) → given r ≡ ok a → r ≡ done a
  given_done (done b) a e = cc
  given_done (failed x) a e = cc

  pub Ensures-answer :
      (R : Trace → Type 0) (r : Answer A) → Ensures R (answer r) (λ a t. (r ≡ done a) × R t)
  unfolding answer
  Ensures-answer R r = record { at = λ t h a e. (given_done r a e, h) }

  -- What is ensured implies what is wanted.
  pub Ensures-mono :
      {R : Trace → Type 0} (Q : A → Trace → Type 0) {S : A → Trace → Type 0} {m : M A}
      → ((a : A) (t : Trace) → Q a t → S a t)
      → Ensures R m Q
      → Ensures R m S
  Ensures-mono Q f h = record { at = λ t r a e. f a _ (h.at t r a e) }

  Ensured-after :
      (Q : A → Trace → Type 0) (d : M (Unit {0})) (r : Result A) (t : Trace) (a : A)
      → ((b : A) → r ≡ ok b → Q b t)
      → (after_failure d r t).0 ≡ ok a
      → Q a (after_failure d r t).1
  Ensured-after Q d (ok b) t a h e = h a e
  Ensured-after Q d (err x) t a h e = cc
  Ensured-after Q d panic t a h e = cc

  pub Ensures-on_failure :
      (R : Trace → Type 0) (Q : A → Trace → Type 0) (d : M (Unit {0})) {m : M A}
      → Ensures R m Q
      → Ensures R (on_failure d m) Q
  unfolding on_failure
  Ensures-on_failure R Q d {m} h = record {
    at = λ t r a e. Ensured-after Q d (m t).0 (m t).1 a (h.at t r) e;
  }

module _ {A B : Type 0} where
  Ensured-branched :
      (Q : A → Trace → Type 0) (S : Trace → Type 0) (T : B → Trace → Type 0) (f : A → M B)
      (g : Error → M B) (r : Result A) (t : Trace) (b : B)
      → ((a : A) → r ≡ ok a → Q a t)
      → S t
      → ((a : A) → Ensures (Q a) (f a) T)
      → ((e : Error) → Ensures S (g e) T)
      → (branched f g r t).0 ≡ ok b
      → T b (branched f g r t).1
  Ensured-branched Q S T f g (ok a) t b q s hf hg e = (hf a).at t (q a refl) b e
  Ensured-branched Q S T f g (err x) t b q s hf hg e = (hg x).at t s b e
  Ensured-branched Q S T f g panic t b q s hf hg e = cc

  -- Of the branch for an error, nothing is assumed.
  pub Ensures-branch :
      (R : Trace → Type 0) (Q : A → Trace → Type 0) (T : B → Trace → Type 0) {m : M A} {f : A → M B}
      {g : Error → M B}
      → Ensures R m Q
      → ((a : A) → Ensures (Q a) (f a) T)
      → ((e : Error) → Ensures Any (g e) T)
      → Ensures R (branch m f g) T
  unfolding branch
  Ensures-branch R Q T {m} {f} {g} hm hf hg = record {
    at = λ t r b e. Ensured-branched Q Any T f g (m t).0 (m t).1 b (hm.at t r) tt hf hg e;
  }

module _ (sys : System) (R : Trace → Type 0) where
  -- The last event is a call that was answered with success, after a history that meets `R`.
  abbrev pub After : Event → Trace → Type 0
  After e t = (w : Trace) × (t ≡ e ∷ w) × R w

  pub Ensures-act : (c : Action) → Ensures R (act sys c) (λ _. After (acted c (done tt)))
  unfolding act
  Ensures-act c = record { at = λ t h a e. by_answer (sys.act t c) t h (given_done _ a e) }
    where
      by_answer :
          (r : Answer (Unit {0})) (t : Trace)
          → R t
          → r ≡ done tt
          → After (acted c (done tt)) (acted c r ∷ t)
      by_answer r t h e = (t, rw e refl, h)

  pub Ensures-read : (c : Read) → Ensures R (read sys c) (λ s. After (answered c (done s)))
  unfolding read
  Ensures-read c = record { at = λ t h a e. (t, rw (given_done (sys.read t c) a e) refl, h) }

  pub Ensures-measure : (c : Measure) → Ensures R (measure sys c) (λ n. After (measured c (done n)))
  unfolding measure
  Ensures-measure c = record { at = λ t h a e. (t, rw (given_done (sys.measure t c) a e) refl, h) }

  -- A call whose event is judged by what holds before it.
  pub DoesBy-act :
      (P : Trace → Event → Type 0) (c : Action)
      → ((t : Trace) (r : Answer (Unit {0})) → R t → P t (acted c r))
      → DoesBy R P (act sys c)
  unfolding act
  DoesBy-act P c h = record { on = λ t r. next _ (h t _ r) start }

module _ {A : Type 0} {P : Trace → Event → Type 0} where
  Extended-after :
      (d : M (Unit {0})) (r : Result A) (t : Trace)
      → DoesBy Any P d
      → ExtendsBy P t (after_failure d r t).1
  Extended-after d (ok a) t hd = start
  Extended-after d (err e) t hd = hd.on t tt
  Extended-after d panic t hd = hd.on t tt

  pub DoesBy-on_failure :
      {R : Trace → Type 0} {d : M (Unit {0})} {m : M A}
      → DoesBy R P m
      → DoesBy Any P d
      → DoesBy R P (on_failure d m)
  unfolding on_failure
  DoesBy-on_failure {d} {m} hm hd = record {
    on = λ t r. ExtendsBy-trans (hm.on t r) (Extended-after d (m t).0 (m t).1 hd);
  }

module _ {A B : Type 0} {P : Trace → Event → Type 0} where
  Extended-branched :
      (f : A → M B) (g : Error → M B) (r : Result A) (t : Trace)
      → ((a : A) → DoesBy Any P (f a))
      → ((e : Error) → DoesBy Any P (g e))
      → ExtendsBy P t (branched f g r t).1
  Extended-branched f g (ok a) t hf hg = (hf a).on t tt
  Extended-branched f g (err e) t hf hg = (hg e).on t tt
  Extended-branched f g panic t hf hg = start

  pub DoesBy-branch :
      {R : Trace → Type 0} {m : M A} {f : A → M B} {g : Error → M B}
      → DoesBy R P m
      → ((a : A) → DoesBy Any P (f a))
      → ((e : Error) → DoesBy Any P (g e))
      → DoesBy R P (branch m f g)
  unfolding branch
  DoesBy-branch {m} {f} {g} hm hf hg = record {
    on = λ t r. ExtendsBy-trans (hm.on t r) (Extended-branched f g (m t).0 (m t).1 hf hg);
  }
