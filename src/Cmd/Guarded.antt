-- ===== src/Cmd/Guarded.antt =====
-- cmd/stop.go and cmd/rm.go: what is done to a VM, judged by what its opening ensures.
use podman_bootc.Base.{Bool, ◌≡◌, refl, List, Text}
use podman_bootc.Cmd.Rm.{kill_vm, force_kill_vm, prune, prune_entries, prune_all, do_remove}
use podman_bootc.Cmd.Stop.{close_vm, do_stop}
use podman_bootc.User.{User, new_user}
use podman_bootc.Utils.Locks.{exclusive}
use podman_bootc.Vm.{NewVmParameters}
use podman_bootc.Vm.Platform.{BootcVm}
use podman_bootc.World.Calls.{System, Entry, Event, Trace}
use podman_bootc.World.Ensures.{Ensures, Ensures-on_error, Ensures-fail, Any}
use podman_bootc.World.Judged.{
  DoesBy, DoesBy-Does, DoesBy-bind, DoesBy-if, DoesBy-on_error, DoesBy-deferring, DoesBy-first,
  DoesBy-for_each, DoesBy-ignore,
}
use podman_bootc.World.Events.{Does, does_rules}
use podman_bootc.World.Exec.{M, read_dir}

-- A VM of the platform is opened, `L` is ensured, and what is done to it then passes `P`, as does
-- what is done before and after.
pub record Guards {V : Type 0} (sys : System) (vm : BootcVm V) (P : Trace → Event → Type 0)
    (L : User → V → Trace → Type 0) : Type 0 where
  pub user : DoesBy Any P (new_user sys)
  pub listed : (dir : Text) → DoesBy Any P (read_dir sys dir)
  pub opened : (params : NewVmParameters) → DoesBy Any P (vm.new_vm params)
  pub locked :
      (params : NewVmParameters)
      → params.locking ≡ exclusive
      → Ensures Any (vm.new_vm params) (L params.user)
  pub closed : (v : V) → DoesBy Any P (close_vm sys vm v)
  pub deleted : (u : User) (v : V) → DoesBy (L u v) P (vm.delete v)
  pub killed : (u : User) (v : V) → DoesBy (L u v) P (kill_vm sys vm v)
  pub force_killed : (u : User) (v : V) → DoesBy (L u v) P (force_kill_vm sys vm v)

-- A program without events.
pub silent : {A : Type 0} {P : Trace → Event → Type 0} {m : M A} → Does (λ e. ⊥) m → DoesBy Any P m
silent h = DoesBy-Does (λ e. ⊥) Any (λ t e k. elim k [ ]) h

module _ {V : Type 0} (sys : System) (vm : BootcVm V) (P : Trace → Event → Type 0)
    (L : User → V → Trace → Type 0) (g : Guards sys vm P L) where
  pub do_stop-DoesBy : (args : List Text) → DoesBy Any P (do_stop sys vm args)
  unfolding do_stop
  do_stop-DoesBy args = DoesBy-first g.user λ u. DoesBy-first (silent (search does_rules)) λ id.
      DoesBy-bind Any (L u) (g.opened _) (g.locked _ refl)
        λ v. DoesBy-deferring (g.deleted u v) (g.closed v)

  prune-DoesBy : (force : Bool) (id : Text) → DoesBy Any P (prune sys vm force id)
  unfolding prune
  prune-DoesBy force id = DoesBy-first g.user λ u.
      DoesBy-bind Any (L u) (DoesBy-on_error (g.opened _) (λ e. silent (search does_rules)))
        (Ensures-on_error Any _ (g.locked _ refl) (λ e. Ensures-fail Any _ _))
        λ v.
          DoesBy-deferring
            (DoesBy-if force
              (DoesBy-on_error (g.force_killed u v) (λ e. silent (search does_rules)))
              (DoesBy-on_error (g.killed u v) (λ e. silent (search does_rules))))
            (g.closed v)

  prune_entries-DoesBy :
      (force : Bool) (files : List Entry) → DoesBy Any P (prune_entries sys vm force files)
  unfolding prune_entries
  prune_entries-DoesBy force files = DoesBy-for_each files (silent (search does_rules)) λ f again h.
      DoesBy-if f.is_dir (DoesBy-first (DoesBy-ignore (prune-DoesBy force f.name)) (λ _. h)) h

  pub do_remove-DoesBy :
      (everything force : Bool) (args : List Text)
      → DoesBy Any P (do_remove sys vm everything force args)
  unfolding do_remove prune_all
  do_remove-DoesBy everything force args =
      DoesBy-if everything
        (DoesBy-first g.user
          λ u. DoesBy-first (g.listed _) λ files. prune_entries-DoesBy force files)
        (DoesBy-first (silent (search does_rules)) λ id. prune-DoesBy force id)
