-- ===== src/Vm/Mac/Looks.antt =====
-- pkg/vm/vm_darwin.go: programs that only look at the pid file of a VM and at its process.
use podman_bootc.Base.{ℕ, ◌^◌, ◌<◌, true, ◌≡◌, refl, ◌∷◌, Text, none}
use podman_bootc.Base.Int.{pos}
use podman_bootc.Go.Decimal.{format_int}
use podman_bootc.Go.Errors.{ok}
use podman_bootc.Utils.Files.{read_pid_file, file_exists}
use podman_bootc.Utils.PidFiles.{parse_pid-format_int}
use podman_bootc.Utils.Process.{is_process_alive}
use podman_bootc.Vm.Mac.{runs_as}
use podman_bootc.World.Calls.{
  System, Event, Trace, Answer, done, acted, answered, measured, Action, find_process,
  signal_process, stat_size, read_file,
}
use podman_bootc.World.Events.{Extends, more}
use podman_bootc.World.Exec.{M, pure, if_nil, attempt, context, ◌>>=◌, act, read, measure}

-- An event that asks without changing anything: a read, or the signal 0.
abbrev IsLookAction : Action → Type 0
IsLookAction (find_process pid) = Unit
IsLookAction (signal_process pid s) = s ≡ 0
IsLookAction _ = ⊥

abbrev pub IsLook : Event → Type 0
IsLook (acted c r) = IsLookAction c
IsLook (answered c r) = Unit
IsLook (measured c r) = Unit
IsLook _ = ⊥

-- From `u` on, while only such events happen, the file at `path` holds the id of a process that runs.
pub record Lives (sys : System) (path : Text) (pid : ℕ) (u : Trace) : Type 0 where
  pub there : (w : Trace) → Extends IsLook u w → (k : ℕ) × (sys.measure w (stat_size path) ≡ done k)
  pub content :
      (w : Trace) → Extends IsLook u w → sys.read w (read_file path) ≡ done (format_int (pos pid))
  pub found : (w : Trace) → Extends IsLook u w → sys.act w (find_process (pos pid)) ≡ done tt
  pub alive : (w : Trace) → Extends IsLook u w → sys.act w (signal_process (pos pid) 0) ≡ done tt

-- From `u` on, `m` only looks, and returns `a`.
pub record Sees {A : Type 0} (u : Trace) (m : M A) (a : A) : Type 0 where
  pub at : (w : Trace) → Extends IsLook u w → ((m w).0 ≡ ok a) × Extends IsLook u (m w).1

module _ {A : Type 0} {u : Trace} where
  pub Sees-pure : (a : A) → Sees u (pure a) a
  unfolding pure
  Sees-pure a = record { at = λ w x. (refl, x) }

  pub Sees-context : (p : Text) {m : M A} {a : A} → Sees u m a → Sees u (context p m) a
  unfolding context
  Sees-context p h = record { at = λ w x. let (e, y) = h.at w x in (rw e refl, y) }

  pub Sees-bind :
      {B : Type 0} {m : M A} (a : A) (f : A → M B) {b : B}
      → Sees u m a
      → Sees u (f a) b
      → Sees u (m >>= f) b
  unfolding ◌>>=◌
  Sees-bind a f hm hf = record { at = λ w x. let (e, y) = hm.at w x in rw e (hf.at _ y) }

-- From `u` on, `m` only looks, and then makes the call `c` as its last one.
pub record Finishes {A : Type 0} (u : Trace) (m : M A) (c : Action) : Type 0 where
  pub at :
      (w : Trace)
      → Extends IsLook u w
      → (v : Trace) × (r : Answer (Unit {0})) × ((m w).1 ≡ acted c r ∷ v) × Extends IsLook u v

pub Finishes-act : (sys : System) {u : Trace} (c : Action) → Finishes u (act sys c) c
unfolding act
Finishes-act sys c = record { at = λ w x. (w, sys.act w c, refl, x) }

pub Finishes-bind :
    {A B : Type 0} {u : Trace} {m : M A} (a : A) (f : A → M B) {c : Action}
    → Sees u m a
    → Finishes u (f a) c
    → Finishes u (m >>= f) c
unfolding ◌>>=◌
Finishes-bind a f hm hf = record { at = λ w x. let (e, y) = hm.at w x in rw e (hf.at _ y) }

module _ (sys : System) (path : Text) (pid : ℕ) (u : Trace) where
  pub Sees-file : Lives sys path pid u → Sees u (file_exists sys path) (true, none)
  unfolding file_exists attempt measure pure ◌>>=◌
  Sees-file h = record { at = λ w x. let (k, e) = h.there w x in rw e (refl, more _ tt x) }

  pub Sees-pid : pid < 2 ^ 63 → Lives sys path pid u → Sees u (read_pid_file sys path) (pos pid)
  unfolding read_pid_file measure read if_nil pure ◌>>=◌
  Sees-pid small h = record {
    at = λ w x.
        let (k, e) = h.there w x in
        rw
          (
            e,
            h.content _ (more (measured (stat_size path) (done k)) tt x),
            parse_pid-format_int pid small,
          )
          (refl, more _ tt (more _ tt x));
  }

  pub Sees-found : Lives sys path pid u → Sees u (act sys (find_process (pos pid))) tt
  unfolding act
  Sees-found h = record { at = λ w x. rw (h.found w x) (refl, more _ tt x) }

  pub Sees-process : Lives sys path pid u → Sees u (is_process_alive sys (pos pid)) true
  unfolding is_process_alive attempt act pure ◌>>=◌
  Sees-process h = record {
    at = λ w x.
        rw (h.found w x, h.alive _ (more (acted (find_process (pos pid)) (done tt)) tt x))
          (refl, more _ refl (more _ tt x));
  }

  pub runs_as-Sees : Lives sys path pid u → Sees u (runs_as sys (pos pid)) true
  unfolding runs_as
  runs_as-Sees h = Sees-process h
