-- ===== src/Cmd/Spares.antt =====
-- cmd/rm.go without `--force`: the events that destroy a domain.
use podman_bootc.Vm.Platform.{linux_vm}
use podman_bootc.Base.{
  ℕ, Bool, true, false, ◌≡◌, refl, ap, sym, ◌∙◌, List, ◌∷◌, Text, lit, ◌==◌, Option, none, some,
  if◌then◌else◌,
}
use podman_bootc.Cmd.Harmless.{
  IsHarmless, IsHarmlessAction, new_user-IsHarmless, new_vm-IsHarmless, close_vm-IsHarmless,
}
use podman_bootc.Cmd.Rm.{kill_vm, prune, prune_entries, prune_all, do_remove}
use podman_bootc.Cmd.Stop.{close_vm}
use podman_bootc.Go.Errors.{Result, ok, err, wrap, new_error}
use podman_bootc.User.{new_user}
use podman_bootc.Vm.{NewVmParameters}
use podman_bootc.Vm.Cache.{delete_from_cache}
use podman_bootc.Vm.Linux.{
  BootcVmLinux, domain_running, is_running, any_named, exists, shutdown, undefine, delete, new_vm,
}
use podman_bootc.World.Calls.{
  System, Entry, Answer, done, failed, Event, Trace, Action, acted, measured, domain_state,
  destroy_domain,
}
use podman_bootc.World.Ensures.{
  Ensures, Ensures-on_error, Ensures-fail, Ensures-any, Ensures-context, Any,
}
use podman_bootc.World.Judged.{
  DoesBy, DoesBy-Does, DoesBy-bind, DoesBy-if, DoesBy-deferring, DoesBy-on_error, DoesBy-first,
  DoesBy-for_each, DoesBy-ignore, DoesBy-context, ExtendsBy,
}
use podman_bootc.World.Events.{Does-mono, Does, Does-pure, Does-fail, does_rules}
use podman_bootc.World.Exec.{
  M, pure, fail, continue, wrapped, given, if_nil, context, measure, ◌>>=◌, ◌>>◌,
}

abbrev IsNoDestroyAction : Action → Type 0
IsNoDestroyAction (destroy_domain d) = ⊥
IsNoDestroyAction _ = Unit

-- An event that is not the destruction of a domain.
abbrev pub IsNoDestroy : Event → Type 0
IsNoDestroy (acted c r) = IsNoDestroyAction c
IsNoDestroy _ = Unit

abbrev pub Spares : Trace → Event → Type 0
Spares t e = IsNoDestroy e

-- To ask for the state of a domain does not change it.
abbrev pub IsStable : System → Type 0
IsStable sys =
    (d : ℕ) (r : Answer ℕ) (t : Trace)
    → sys.measure (measured (domain_state d) r ∷ t) (domain_state d)
      ≡ sys.measure t (domain_state d)

harmless_action_spares : (c : Action) → IsHarmlessAction c → IsNoDestroyAction c
harmless_action_spares (destroy_domain d) h = h
harmless_action_spares _ h = tt

harmless_spares : (e : Event) → IsHarmless e → IsNoDestroy e
harmless_spares (acted c r) h = harmless_action_spares c h
harmless_spares _ h = tt

module _ (sys : System) where
  spare : {A : Type 0} (R : Trace → Type 0) {m : M A} → Does IsNoDestroy m → DoesBy R Spares m
  spare R h = DoesBy-Does IsNoDestroy R (λ t e p. p) h

  -- A question to libvirt and a test on its answer, as a function of the answer.
  abbrev tested_answer : Text → (ℕ → Bool) → Answer ℕ → Result Bool
  tested_answer p f (done n) = ok (f n)
  tested_answer p f (failed e) = err (wrap p e)

  ask : Text → (ℕ → Bool) → ℕ → M Bool
  ask p f d = do s ← context p (measure sys (domain_state d)); pure (f s)

  ask_lem :
      (p : Text) (f : ℕ → Bool) (d : ℕ) (t : Trace)
      → ask p f d t ≡ (
        tested_answer p f (sys.measure t (domain_state d)),
        measured (domain_state d) (sys.measure t (domain_state d)) ∷ t,
      )
  unfolding ask context measure pure ◌>>=◌
  ask_lem p f d t = by_answer (sys.measure t (domain_state d))
    where
      by_answer :
          (r : Answer ℕ)
          → continue (λ s. pure (f s)) (wrapped p (given r)) (measured (domain_state d) r ∷ t)
            ≡ (tested_answer p f r, measured (domain_state d) r ∷ t)
      by_answer (done n) = refl
      by_answer (failed e) = refl

  ask_again :
      (p : Text) (f : ℕ → Bool) (o : Option ℕ) (t : Trace)
      → IsStable sys
      → let m = if_nil o (pure false) (ask p f) in (m (m t).1).0 ≡ (m t).0
  unfolding if_nil pure
  ask_again p f none t stable = refl
  ask_again p f (some d) t stable =
      rw (ask_lem p f d t, ask_lem p f d, stable d (sys.measure t (domain_state d)) t) refl

  -- The same question, asked again at once, has the same answer.
  is_running_again :
      (v : BootcVmLinux) (t : Trace)
      → IsStable sys
      → (is_running sys v (is_running sys v t).1).0 ≡ (is_running sys v t).0
  unfolding is_running ask
  is_running_again v t stable =
      ask_again (lit "unable to get VM state") (λ s. s == domain_running) v.domain t stable

  -- The VM is known not to run.
  abbrev Stopped : BootcVmLinux → Trace → Type 0
  Stopped v t = (is_running sys v t).0 ≡ ok false

  asked_once :
      (v : BootcVmLinux)
      → IsStable sys
      → Ensures Any (is_running sys v) (λ running t. running ≡ false → Stopped v t)
  asked_once v stable = record {
    at = λ t _ running e k. is_running_again v t stable ∙ (e ∙ ap ok k);
  }

  abbrev value_of : Result Bool → Bool
  value_of (ok b) = b
  value_of _ = true

  asked_twice :
      (v : BootcVmLinux) → Ensures (Stopped v) (is_running sys v) (λ running t. running ≡ false)
  asked_twice v = record { at = λ t stopped running e. ap value_of (sym e ∙ stopped) }

  is_running-spares : (v : BootcVmLinux) → Does IsNoDestroy (is_running sys v)
  unfolding is_running
  is_running-spares v = search does_rules depth 20

  unless_running :
      (m : M (Unit {0})) (running : Bool)
      → DoesBy (λ t. running ≡ false) Spares (if running then m else pure tt)
  unless_running m true = record { on = λ t e. cc }
  unless_running m false = spare _ (Does-pure tt)

  shutdown-Spares : (v : BootcVmLinux) → DoesBy (Stopped v) Spares (shutdown sys v)
  unfolding shutdown
  shutdown-Spares v =
      DoesBy-bind (Stopped v) (λ running t. running ≡ false)
        (spare _ (search (does_rules, is_running-spares) depth 10))
        (Ensures-context (Stopped v) _ _ (asked_twice v)) (unless_running _)

  delete-Spares : (v : BootcVmLinux) → DoesBy (Stopped v) Spares (delete sys v)
  unfolding delete exists any_named undefine
  delete-Spares v =
      DoesBy-bind (Stopped v) (λ _. Any) (DoesBy-context _ (shutdown-Spares v)) (Ensures-any _ _)
        (λ _. spare Any (search does_rules depth 24))

  kill_vm-Spares :
      IsStable sys → (v : BootcVmLinux) → DoesBy Any Spares (kill_vm sys (linux_vm sys) v)
  unfolding kill_vm delete_from_cache
  kill_vm-Spares stable v =
      DoesBy-bind Any (λ running t. running ≡ false → Stopped v t)
        (spare Any (search (does_rules, is_running-spares) depth 10))
        (Ensures-on_error Any _ (asked_once v stable) (λ e. Ensures-fail Any _ _)) by_state
    where
      by_state :
          (running : Bool)
          → DoesBy
              (λ t. running ≡ false → Stopped v t)
              Spares
              (if running
                then fail
                    (new_error (lit "VM is currently running. Stop it first or use the -f flag."))
                else (do delete sys v; delete_from_cache sys v.common))
      by_state true = spare _ (Does-fail _)
      by_state false =
          DoesBy-bind _ (λ _. Any) (record { on = λ t h. (delete-Spares v).on t (h refl) })
            (Ensures-any _ _) (λ _. spare Any (search does_rules))

  new_user-spares : Does IsNoDestroy (new_user sys)
  new_user-spares = Does-mono harmless_spares (new_user-IsHarmless sys)

  new_vm-spares : (params : NewVmParameters) → Does IsNoDestroy (new_vm sys params)
  new_vm-spares params = Does-mono harmless_spares (new_vm-IsHarmless sys params)

  close_vm-spares : (v : BootcVmLinux) → Does IsNoDestroy (close_vm sys (linux_vm sys) v)
  close_vm-spares v = Does-mono harmless_spares (close_vm-IsHarmless sys v)

  prune-Spares : IsStable sys → (id : Text) → DoesBy Any Spares (prune sys (linux_vm sys) false id)
  unfolding prune
  prune-Spares stable id = DoesBy-first (spare Any new_user-spares) λ user.
      DoesBy-first (spare Any (search (does_rules, new_vm-spares) depth 10)) λ v.
        DoesBy-deferring
          (DoesBy-on_error (kill_vm-Spares stable v) (λ e. spare Any (search does_rules)))
          (spare Any (close_vm-spares v))

  prune_entries-Spares :
      IsStable sys
      → (files : List Entry) → DoesBy Any Spares (prune_entries sys (linux_vm sys) false files)
  unfolding prune_entries
  prune_entries-Spares stable files = DoesBy-for_each files (spare Any (Does-pure tt)) λ f again h.
      DoesBy-if f.is_dir (DoesBy-first (DoesBy-ignore (prune-Spares stable f.name)) (λ _. h)) h

  remove-Spares :
      IsStable sys
      → (everything : Bool) (args : List Text)
      → DoesBy Any Spares (do_remove sys (linux_vm sys) everything false args)
  unfolding do_remove prune_all
  remove-Spares stable everything args =
      DoesBy-if everything
        (DoesBy-first (spare Any new_user-spares) λ user.
          DoesBy-first (spare Any (search does_rules)) λ files. prune_entries-Spares stable files)
        (DoesBy-first (spare Any (search does_rules)) λ id. prune-Spares stable id)

-- On Linux, for every system in which asking for the state of a domain does not change it, every
-- setting of `--all`, argument list and history: `rm` without `--force` destroys no domain.
pub do_remove-Spares :
    (sys : System)
    → IsStable sys
    → (everything : Bool) (args : List Text) (t : Trace)
    → ExtendsBy Spares t (do_remove sys (linux_vm sys) everything false args t).1
do_remove-Spares sys stable everything args t = (remove-Spares sys stable everything args).on t tt
