-- ===== src/Cmd/Within.antt =====
-- cmd and pkg/vm: what is done to a VM that is open.
use podman_bootc.Vm.Platform.{linux_vm}
use podman_bootc.Base.{ℕ, ◌≡◌, refl, Text, Option, some}
use podman_bootc.Cmd.Rm.{kill_vm, force_kill_vm}
use podman_bootc.Vm.Cache.{delete_from_cache}
use podman_bootc.Vm.Linux.{BootcVmLinux, is_running, any_named, exists, shutdown, undefine, delete}
use podman_bootc.World.Calls.{
  System, Event, Action, acted, tested, remove_all, unlock, destroy_domain, undefine_domain_nvram,
  undefine_domain,
}
use podman_bootc.World.Events.{
  Does, Does-act, Does-bind, Does-context, Does-if, Does-pure, Does-some, does_rules,
}
use podman_bootc.World.Locks.{IsNeutral, IsNoUnlock}

-- What may be done to a VM with this directory and domain: no lock is touched, no other directory
-- removed, and no other domain destroyed or undefined.
abbrev pub IsWithinAction : Text → Option ℕ → Action → Type 0
IsWithinAction dir o (remove_all d) = d ≡ dir
IsWithinAction dir o (unlock l) = ⊥
IsWithinAction dir o (destroy_domain d) = o ≡ some d
IsWithinAction dir o (undefine_domain_nvram d) = o ≡ some d
IsWithinAction dir o (undefine_domain d) = o ≡ some d
IsWithinAction dir o _ = Unit

abbrev pub IsWithin : Text → Option ℕ → Event → Type 0
IsWithin dir o (acted c r) = IsWithinAction dir o c
IsWithin dir o (tested c r) = ⊥
IsWithin dir o _ = Unit

within-IsNoUnlock : (dir : Text) (o : Option ℕ) (c : Action) → IsWithinAction dir o c → IsNoUnlock c
within-IsNoUnlock dir o (unlock l) h = elim h [ ]
within-IsNoUnlock dir o (remove_all d) h = tt
within-IsNoUnlock dir o _ h = tt

pub within-IsNeutral : (dir : Text) (o : Option ℕ) (e : Event) → IsWithin dir o e → IsNeutral e
within-IsNeutral dir o (acted c r) h = within-IsNoUnlock dir o c h
within-IsNeutral dir o (tested c r) h = elim h [ ]
within-IsNeutral dir o _ h = tt

module _ (sys : System) (v : BootcVmLinux) (dir : Text) where
  shutdown-IsWithin : Does (IsWithin dir v.domain) (shutdown sys v)
  unfolding shutdown is_running
  shutdown-IsWithin = Does-bind (search does_rules depth 10) λ running.
      Does-if running (Does-some v.domain _ (λ d same. search does_rules depth 6)) (Does-pure tt)

  undefine-IsWithin : (d : ℕ) → v.domain ≡ some d → Does (IsWithin dir v.domain) (undefine sys d)
  unfolding undefine
  undefine-IsWithin d same = search does_rules depth 10

  exists-IsWithin : Does (IsWithin dir v.domain) (exists sys v)
  unfolding exists any_named
  exists-IsWithin = search does_rules depth 20

  pub delete-IsWithin : Does (IsWithin dir v.domain) (delete sys v)
  unfolding delete
  delete-IsWithin = Does-bind (Does-context _ shutdown-IsWithin) λ _.
      Does-bind (Does-context _ exists-IsWithin) λ found.
        Does-if found (Does-some v.domain _ (λ d same. Does-context _ (undefine-IsWithin d same)))
          (Does-pure tt)

module _ (sys : System) (v : BootcVmLinux) where
  delete_from_cache-IsWithin : Does (IsWithin v.cache_dir v.domain) (delete_from_cache sys v.common)
  unfolding delete_from_cache
  delete_from_cache-IsWithin = Does-act sys (remove_all v.cache_dir) (λ r. refl)

  pub kill_vm-IsWithin : Does (IsWithin v.cache_dir v.domain) (kill_vm sys (linux_vm sys) v)
  unfolding kill_vm is_running
  kill_vm-IsWithin = search (does_rules, delete-IsWithin, delete_from_cache-IsWithin) depth 20

  pub force_kill_vm-IsWithin :
      Does (IsWithin v.cache_dir v.domain) (force_kill_vm sys (linux_vm sys) v)
  unfolding force_kill_vm
  force_kill_vm-IsWithin = search (does_rules, delete-IsWithin, delete_from_cache-IsWithin) depth 20
