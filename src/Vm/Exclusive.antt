-- ===== src/Vm/Exclusive.antt =====
-- pkg/vm: `NewVM` with an exclusive lock, and what holds when it returns.
use podman_bootc.Base.{
  Bool, true, false, not, ◌≡◌, refl, ap, sym, ◌∙◌, Text, lit, [], ◌∷◌, is_empty, none,
  if◌then◌else◌,
}
use podman_bootc.Go.Path.{join}
use podman_bootc.Vm.Domains.{IsNamed, load_existing_domain-Named, get_vm_cache_path-dir}
use podman_bootc.World.Returns.{Returns-context}
use podman_bootc.Go.Errors.{leaf, vm_in_use}
use podman_bootc.User.{User, cache_dir, run_dir}
use podman_bootc.Utils.Locks.{CacheLock, exclusive, new_cache_lock, try_lock_in}
use podman_bootc.Vm.{NewVmParameters, BootcVmCommon}
use podman_bootc.Vm.Cache.{check_cache_dir, lock_vm}
use podman_bootc.Vm.Linux.{BootcVmLinux, initial_vm, load_existing_domain, open_locked, new_vm}
use podman_bootc.Vm.Locking.{
  lock_path, load_existing_domain-Loaded, load_existing_domain-Does, file_exists-Does,
}
use podman_bootc.World.Calls.{System, Trace}
use podman_bootc.World.Exec.{fail}
use podman_bootc.World.Events.{Does-or_crash}
use podman_bootc.World.Ensures.{
  Ensures, Any, Holds, Ensures-bind, Ensures-any, Ensures-if, Ensures-fail, Ensures-pure,
  Ensures-on_error, Ensures-try, Ensures-Holds, Ensures-if_nil, Ensures-weaken, Ensures-given,
  Ensures-and,
}
use podman_bootc.World.Locks.{held_exclusive-Extends}

-- The lock file of a directory, for a user.
abbrev pub lock_file : System → User → Text → Text
lock_file sys u dir = (new_cache_lock (run_dir sys u) dir).path

-- It does not depend on the user.
pub lock_file_same :
    (sys : System) (u w : User) (dir : Text) → lock_file sys u dir ≡ lock_file sys w dir
unfolding run_dir
lock_file_same sys u w dir = refl

pub Holds-at : (l k : Text) (t : Trace) → l ≡ k → Holds l t → Holds k t
Holds-at l k t e h = rw (← e) h

abbrev pub path_of : CacheLock → Text
path_of l = l.path

-- The VM is locked exclusively, by the lock file of its directory, which is that of an id, and its
-- domain is the one of this id.
pub record IsLocked (sys : System) (u : User) (v : BootcVmLinux) (t : Trace) : Type 0 where
  pub its_file : lock_path v ≡ lock_file sys u v.cache_dir
  pub is_held : Holds (lock_path v) t
  pub full_id : Text
  pub its_dir : v.cache_dir ≡ join (cache_dir u ∷ full_id ∷ [])
  pub its_domain : IsNamed full_id v.domain t

module _ (sys : System) where
  check_cache_dir-Ensures :
      (params : NewVmParameters) (dir : Text) (lock : CacheLock)
      → Ensures
          (Holds lock.path)
          (check_cache_dir sys params dir lock)
          (λ l t. (l ≡ lock) × Holds lock.path t)
  unfolding check_cache_dir
  check_cache_dir-Ensures params dir lock =
      Ensures-bind _ (λ _. Holds lock.path) _ (Ensures-Holds lock.path (file_exists-Does sys dir))
        λ (found, problem).
          Ensures-if_nil _ _ problem
            (Ensures-if _ _ (not found)
              (Ensures-bind _ (λ _ _. Unit {0}) _ (Ensures-any _ _) (λ _. Ensures-fail _ _ _))
              (Ensures-pure _ _ lock (λ t h. (refl, h))))
            (λ e. Ensures-bind _ (λ _ _. Unit {0}) _ (Ensures-any _ _) (λ _. Ensures-fail _ _ _))

  pub lock_vm-Ensures :
      (params : NewVmParameters) (dir : Text)
      → params.locking ≡ exclusive
      → let lock = new_cache_lock (run_dir sys params.user) dir in
        Ensures Any (lock_vm sys params dir) (λ l t. (l ≡ lock) × Holds lock.path t)
  unfolding lock_vm try_lock_in
  lock_vm-Ensures params dir e = simp e (
      Ensures-bind _ _ _ (Ensures-try sys Any _ _)
        (by_answer (new_cache_lock (run_dir sys params.user) dir)))
    where
      by_answer :
          (lock : CacheLock) (locked : Bool)
          → Ensures
              (λ t. locked ≡ true → Holds lock.path t)
              (if not locked
                then fail (leaf vm_in_use (lit "VM already in use"))
                else check_cache_dir sys params dir lock)
              (λ l t. (l ≡ lock) × Holds lock.path t)
      by_answer lock true = Ensures-weaken (λ t h. h refl) (check_cache_dir-Ensures params dir lock)
      by_answer lock false = Ensures-fail _ _ _

  open_locked-Ensures :
      (params : NewVmParameters) (id dir : Text) (lock : CacheLock)
      → lock.path ≡ lock_file sys params.user dir
      → dir ≡ join (cache_dir params.user ∷ id ∷ [])
      → Ensures (Holds lock.path) (open_locked sys params id dir lock) (IsLocked sys params.user)
  unfolding open_locked
  open_locked-Ensures params id dir lock e_file e_dir =
      Ensures-bind _ (λ _. Holds lock.path) _ (Ensures-Holds lock.path (Does-or_crash _))
        λ name.
          Ensures-on_error _ _ (loaded (initial_vm sys params id dir lock name) refl refl refl refl)
            (λ x. Ensures-bind _ (λ _ _. Unit {0}) _ (Ensures-any _ _) (λ _. Ensures-fail _ _ _))
    where
      loaded :
          (v : BootcVmLinux)
          → v.domain ≡ none
          → v.cache_dir_lock ≡ lock
          → v.cache_dir ≡ dir
          → v.image_id ≡ id
          → Ensures (Holds lock.path) (load_existing_domain sys v) (IsLocked sys params.user)
      loaded v fresh its_lock its_dir its_id = record {
        at = λ t held_now w e.
            let same = ((load_existing_domain-Loaded sys v fresh).at t w e).same_common in
            let dir_eq : w.cache_dir ≡ dir =
              ap (λ (c : BootcVmCommon). c.cache_dir) same ∙ its_dir in
            let file_eq : lock_path w ≡ lock.path =
              ap (λ (c : BootcVmCommon). c.cache_dir_lock.path) same ∙ ap path_of its_lock in
            record {
              its_file = file_eq ∙ (e_file ∙ ap (lock_file sys params.user) (sym dir_eq));
              is_held =
                  rw
                    (
                      file_eq,
                      held_exclusive-Extends lock.path ((load_existing_domain-Does sys v).on t),
                    )
                    held_now;
              full_id = id;
              its_dir = dir_eq ∙ e_dir;
              its_domain = rw (← its_id) ((load_existing_domain-Named sys v fresh).at t tt w e);
            };
      }

  -- `NewVM` with an exclusive lock returns a VM that is locked exclusively.
  pub new_vm-Ensures :
      (params : NewVmParameters)
      → params.locking ≡ exclusive
      → Ensures Any (new_vm sys params) (IsLocked sys params.user)
  unfolding new_vm
  new_vm-Ensures params e = Ensures-if _ _ (is_empty params.image_id) (Ensures-fail _ _ _) (
      Ensures-if _ _ (is_empty params.libvirt_uri) (Ensures-fail _ _ _) (
        Ensures-bind _ _ _
          (Ensures-and (λ r. r.1 ≡ join (cache_dir params.user ∷ r.0 ∷ []))
            (Returns-context _ _ (get_vm_cache_path-dir sys params.image_id params.user))
            (Ensures-any Any _))
          λ (id, dir). Ensures-given _ λ its_dir.
            Ensures-bind _ _ _ (lock_vm-Ensures params dir e) λ lock. Ensures-given _ λ same_lock.
              Ensures-weaken (λ t h. rw same_lock h)
                (open_locked-Ensures params id dir lock (ap path_of same_lock) its_dir)))
