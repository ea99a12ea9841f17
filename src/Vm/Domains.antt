-- ===== src/Vm/Domains.antt =====
-- pkg/vm/vm_linux.go: which domain of libvirt `NewVM` finds for a VM.
use podman_bootc.Base.{◌≡◌, refl, ◌∷◌, [], Text, Option, none, some, Member, here, there, ℕ}
use podman_bootc.Go.Errors.{cause, has_libvirt_code}
use podman_bootc.Go.Path.{join}
use podman_bootc.User.{User, cache_dir}
use podman_bootc.Vm.Cache.{get_vm_cache_path}
use podman_bootc.Vm.Linux.{BootcVmLinux, err_no_domain, vm_name_of, load_existing_domain}
use podman_bootc.World.Answers.{Ensures-measure, Ensures-branch}
use podman_bootc.World.Returns.{Returns, Returns-bind, Returns-if_pure}
use podman_bootc.World.Calls.{System, Event, Trace, done, measured, lookup_domain}
use podman_bootc.World.Ensures.{
  Ensures, Any, Ensures-any, Ensures-bind, Ensures-fail, Ensures-given, Ensures-if, Ensures-nil,
  Ensures-or_crash, Ensures-pure,
}
use podman_bootc.World.Exec.{read_dir}

-- libvirt has returned the domain `d` under the name of the VM with this id.
pub record IsDomainOf (id : Text) (d : ℕ) (t : Trace) : Type 0 where
  pub connection : ℕ
  pub name : Text
  pub its_name : vm_name_of id ≡ some name
  pub looked_up : Member (measured (lookup_domain connection name) (done d)) t

pub IsDomainOf-later :
    {id : Text} {d : ℕ} (e : Event) {t : Trace} → IsDomainOf id d t → IsDomainOf id d (e ∷ t)
IsDomainOf-later e h = record {
  connection = h.connection;
  name = h.name;
  its_name = h.its_name;
  looked_up = there h.looked_up;
}

-- The domain that a VM holds, if any, is the one of its id.
abbrev pub IsNamed : Text → Option ℕ → Trace → Type 0
IsNamed id o t = (d : ℕ) → o ≡ some d → IsDomainOf id d t

no_domain : (id : Text) (t : Trace) → IsNamed id none t
no_domain id t d e = absurd cc

found_domain :
    (id : Text) (conn : ℕ) (name : Text) (d : ℕ) (t w : Trace)
    → vm_name_of id ≡ some name
    → t ≡ measured (lookup_domain conn name) (done d) ∷ w
    → IsNamed id (some d) t
found_domain id conn name d t w named e d' same = record {
  connection = conn;
  name = name;
  its_name = named;
  looked_up = let same_d : d' ≡ d = cc in rw (e, same_d) here;
}

module _ (sys : System) where
  -- `loadExistingDomain` looks for the domain under the name of the VM.
  pub load_existing_domain-Named :
      (v : BootcVmLinux)
      → v.domain ≡ none
      → Ensures Any (load_existing_domain sys v) (λ w. IsNamed v.image_id w.domain)
  unfolding load_existing_domain
  load_existing_domain-Named v fresh = Ensures-nil Any _ v.domain _ fresh (
      Ensures-bind Any (λ _. Any) _ (Ensures-any Any _)
        λ conn. Ensures-bind Any _ _ (Ensures-or_crash Any (vm_name_of v.image_id)) λ name.
          Ensures-given _ λ named.
            Ensures-branch Any _ _ (Ensures-measure sys Any (lookup_domain conn name))
              (λ d.
                Ensures-pure _ _ _ (λ t (w, e, _). found_domain v.image_id conn name d t w named e))
              (λ e.
                Ensures-if _ _ (has_libvirt_code (cause e) err_no_domain)
                  (Ensures-pure _ _ _ (λ t _. no_domain v.image_id t)) (Ensures-fail _ _ _)))

  -- `GetVMCachePath` returns the directory of the id that it returns.
  pub get_vm_cache_path-dir :
      (id : Text) (u : User)
      → Returns (λ r. r.1 ≡ join (cache_dir u ∷ r.0 ∷ [])) (get_vm_cache_path sys id u)
  unfolding get_vm_cache_path
  get_vm_cache_path-dir id u =
      Returns-bind _ (read_dir sys (cache_dir u)) λ files. Returns-if_pure _ _ _ _ (λ _. refl)
