-- ===== src/Vm/Locking.antt =====
-- The lock of a VM: what `lockVM` and `NewVM` of pkg/vm hold when they return.
use podman_bootc.Base.{
  ◌≤◌, Bool, true, false, not, ◌≡◌, refl, ◌≢◌, Text, lit, [], ◌∷◌, length, is_empty, Option, none,
  some, is_some, inl, ap, ◌⊎◌, arith, slice_to, if◌then◌else◌, List,
}
use podman_bootc.Go.Errors.{leaf, vm_in_use, Error, ok, panic}
use podman_bootc.User.{User, cache_dir}
use podman_bootc.Utils.Files.{file_exists}
use podman_bootc.Utils.Locks.{CacheLock, AccessMode, exclusive, shared, try_lock_in, unlock}
use podman_bootc.Vm.{NewVmParameters, BootcVmCommon}
use podman_bootc.Vm.Cache.{find_full_id, get_vm_cache_path, check_cache_dir, lock_vm}
use podman_bootc.Vm.Linux.{
  BootcVmLinux, vm_name_of, load_existing_domain, initial_vm, open_locked, new_vm,
}
use podman_bootc.World.Calls.{System, Entry, Trace, try_lock, try_rlock}
use podman_bootc.World.Exec.{
  pure, fail, context, attempt, branch, if_nil, ignore, or_crash, ◌>>=◌, ◌>>◌, act, measure,
  read_dir,
}
use podman_bootc.World.Events.{Does, Does-context, Does-or_crash, does_rules}
use podman_bootc.World.Locks.{IsNeutral}
use podman_bootc.World.Brackets.{
  Acquires-if, Acquires-fail, Balances-Does, Acquires, GivesBack, GivesBack-unlock,
}
use podman_bootc.World.Returns.{
  Returns-if, Returns-fail, Returns-on_error, Returns-bind, Returns-if_pure, Returns-context,
  Returns,
}
use podman_bootc.World.Settles.{
  Acquires-try, Succeeds-or_crash, Settles, Settles-if, Settles-bind, Succeeds, Settles-pure,
  Settles-release, Settles-on_error, Acquires-then, Acquires-bind-Returns,
}

abbrev pub path_of : CacheLock → Text
path_of l = l.path

abbrev pub lock_path : BootcVmLinux → Text
lock_path v = v.cache_dir_lock.path

module _ (sys : System) where
  unlock_succeeds : (lock : CacheLock) (t : Trace) → (ignore (unlock sys lock) t).0 ≡ ok tt
  unfolding unlock ignore attempt act pure ◌>>=◌
  unlock_succeeds lock t = ground arith

  unlock-GivesBack : (lock : CacheLock) → GivesBack lock.path (ignore (unlock sys lock))
  unfolding unlock
  unlock-GivesBack lock = GivesBack-unlock sys lock.path

  settled_failure :
      {A : Type 0} (lock : CacheLock) (path : A → Text) (e : Error)
      → Settles lock.path path (ignore (unlock sys lock) >> fail e)
  settled_failure lock path e =
      Settles-release lock.path path e (unlock-GivesBack lock) (unlock_succeeds lock)

  check_problem :
      (lock : CacheLock) (b : Error) (found : Bool) (o : Option Error) (g : Error → Error)
      → Settles lock.path path_of (
          if_nil o
            (if not found then (do ignore (unlock sys lock); fail b) else pure lock)
            (λ e. do ignore (unlock sys lock); fail (g e)))
  unfolding if_nil
  check_problem lock b found (some x) g = settled_failure lock path_of _
  check_problem lock b found none g =
      Settles-if lock.path path_of (not found) (settled_failure lock path_of b)
        (Settles-pure lock.path path_of lock refl)

  pub file_exists-Does : (path : Text) → Does IsNeutral (file_exists sys path)
  unfolding file_exists
  file_exists-Does path = search does_rules

  file_exists-Succeeds : (path : Text) → Succeeds (file_exists sys path)
  unfolding file_exists measure attempt pure ◌>>=◌
  file_exists-Succeeds path = record { at = λ t. ground arith }

  check_cache_dir-Settles :
      (params : NewVmParameters) (dir : Text) (lock : CacheLock)
      → Settles lock.path path_of (check_cache_dir sys params dir lock)
  unfolding check_cache_dir
  check_cache_dir-Settles params dir lock =
      Settles-bind lock.path path_of (file_exists-Does dir) (file_exists-Succeeds dir)
        (λ (found, problem). check_problem lock _ found problem _)

  pub lock_vm-Acquires :
      (params : NewVmParameters) (dir : Text) → Acquires path_of (lock_vm sys params dir)
  unfolding lock_vm try_lock_in
  lock_vm-Acquires params dir = by_mode params.locking _
    where
      by_mode :
          (mode : AccessMode) (lock : CacheLock)
          → Acquires path_of (
              context (lit "unable to lock the VM cache path") (try_lock_in sys lock mode)
              >>= λ locked.
                  if not locked
                  then fail (leaf vm_in_use (lit "VM already in use"))
                  else check_cache_dir sys params dir lock)
      by_mode exclusive lock =
          Acquires-try sys (try_lock lock.path) path_of _ _
            (check_cache_dir-Settles params dir lock)
      by_mode shared lock =
          Acquires-try sys (try_rlock lock.path) path_of _ _
            (check_cache_dir-Settles params dir lock)

  -- What `loadExistingDomain` leaves alone, and that it connects.
  pub record Loaded (v w : BootcVmLinux) : Type 0 where
    pub same_common : w.common ≡ v.common
    pub connected : is_some w.libvirt_connection ≡ true

  pub vm_name_of-long : (id : Text) → 12 ≤ length id → is_some (vm_name_of id) ≡ true
  unfolding vm_name_of slice_to
  vm_name_of-long id h = ground arith

  pub load_existing_domain-Does : (v : BootcVmLinux) → Does IsNeutral (load_existing_domain sys v)
  unfolding load_existing_domain
  load_existing_domain-Does v = search does_rules depth 20

  pub load_existing_domain-Loaded :
      (v : BootcVmLinux) → v.domain ≡ none → Returns (Loaded v) (load_existing_domain sys v)
  unfolding load_existing_domain measure branch if_nil or_crash fail pure ◌>>=◌
  load_existing_domain-Loaded v fresh = record { at = λ t w e. ground arith }

  pub load_existing_domain-ne-panic :
      (v : BootcVmLinux) (t : Trace)
      → v.domain ≡ none
      → 12 ≤ length v.image_id
      → (load_existing_domain sys v t).0 ≢ panic
  unfolding load_existing_domain measure branch if_nil or_crash fail pure ◌>>=◌
  load_existing_domain-ne-panic v t fresh long = ground (arith, vm_name_of-long v.image_id long)

  -- `NewVM`, once it holds the lock on the directory of a long enough id, keeps it or gives it back.
  open_locked-Settles :
      (params : NewVmParameters) (id dir : Text) (lock : CacheLock)
      → 12 ≤ length id
      → Settles lock.path lock_path (open_locked sys params id dir lock)
  unfolding open_locked
  open_locked-Settles params id dir lock long =
      Settles-bind lock.path lock_path (Does-or_crash (vm_name_of id))
        (Succeeds-or_crash (vm_name_of id) (vm_name_of-long id long))
        (λ name.
          Settles-on_error lock.path lock_path
            (load_existing_domain-Does (initial_vm sys params id dir lock name))
            (record {
              at = λ t v e.
                  ap (λ (c : BootcVmCommon). c.cache_dir_lock.path)
                    ((load_existing_domain-Loaded (initial_vm sys params id dir lock name) refl).at
                      t v e).same_common;
            })
            (λ t.
              load_existing_domain-ne-panic (initial_vm sys params id dir lock name) t refl long)
            (λ e. settled_failure lock lock_path _))

  find_full_id-Full :
      (id : Text) (files : List Entry) (full : Text)
      → (full ≡ []) ⊎ (length full ≡ 64)
      → let r = find_full_id id files full in (r ≡ []) ⊎ (length r ≡ 64)
  unfolding find_full_id
  find_full_id-Full id [] full h = h
  find_full_id-Full id (f ∷ files) full h = find_full_id-Full id files _ (ground arith)

  pub get_vm_cache_path-Does : (id : Text) (u : User) → Does IsNeutral (get_vm_cache_path sys id u)
  unfolding get_vm_cache_path
  get_vm_cache_path-Does id u = search does_rules depth 20

  full_id_length :
      (full : Text) → (full ≡ []) ⊎ (length full ≡ 64) → is_empty full ≡ false → 12 ≤ length full
  full_id_length full h e = ground arith

  pub get_vm_cache_path-length :
      (id : Text) (u : User) → Returns (λ r. 12 ≤ length r.0) (get_vm_cache_path sys id u)
  unfolding get_vm_cache_path
  get_vm_cache_path-length id u = Returns-bind _ (read_dir sys (cache_dir u)) λ files.
      Returns-if_pure _ (is_empty (find_full_id id files [])) _ _
        (full_id_length (find_full_id id files []) (find_full_id-Full id files [] (inl refl)))

  -- `NewVM` returns with the lock of its VM held, or takes none.
  pub new_vm-Acquires : (params : NewVmParameters) → Acquires lock_path (new_vm sys params)
  unfolding new_vm
  new_vm-Acquires params =
      Acquires-if lock_path (is_empty params.image_id) (Acquires-fail lock_path _) (
        Acquires-if lock_path (is_empty params.libvirt_uri) (Acquires-fail lock_path _) (
          Acquires-bind-Returns lock_path (λ r. 12 ≤ length r.0)
            (Balances-Does (Does-context _ (get_vm_cache_path-Does params.image_id params.user)))
            (Returns-context _ _ (get_vm_cache_path-length params.image_id params.user))
            (λ (id, dir) long.
              Acquires-then path_of lock_path (lock_vm-Acquires params dir)
                (λ lock t e. open_locked-Settles params id dir lock long))))

  -- What `NewVM` returns is connected to libvirt.
  pub new_vm-connected :
      (params : NewVmParameters)
      → Returns (λ v. is_some v.libvirt_connection ≡ true) (new_vm sys params)
  unfolding new_vm open_locked
  new_vm-connected params = Returns-if _ (is_empty params.image_id) (Returns-fail _ _) (
      Returns-if _ (is_empty params.libvirt_uri) (Returns-fail _ _) (
        Returns-bind _ _ λ (id, dir). Returns-bind _ _ λ lock. Returns-bind _ _ λ name.
          Returns-on_error _
            (record {
              at = λ t v e.
                  ((load_existing_domain-Loaded (initial_vm sys params id dir lock name) refl).at t
                    v e).connected;
            })
            (λ e. Returns-bind _ _ λ _. Returns-fail _ _)))
