-- ===== src/Vm/Linux.antt =====
-- pkg/vm/vm_linux.go: the VM as a libvirt domain.
use podman_bootc.Base.{
  ℕ, ◌/◌, ◌*◌, Bool, true, false, List, [], ◌∷◌, ◌++◌, Text, lit, text_eq, is_empty, slice_to,
  Option, none, some, ◌==◌, if◌then◌else◌,
}
use podman_bootc.Config.{disk_image}
use podman_bootc.Go.Errors.{new_error, wrap, cause, has_libvirt_code, is_libvirt_error}
use podman_bootc.Go.Path.{join}
use podman_bootc.Utils.Locks.{CacheLock}
use podman_bootc.Utils.Locks.{unlock as unlock_cache}
use podman_bootc.Vm.{NewVmParameters, RunVmParameters, BootcVmCommon}
use podman_bootc.Vm.Cache.{get_vm_cache_path, lock_vm}
use podman_bootc.Vm.Config.{load_config_file}
use podman_bootc.Vm.Template.{parse_domain_template}
use podman_bootc.World.Calls.{
  System, VmConfig, connect, lookup_domain, define_domain, domain_state, domain_name, create_domain,
  destroy_domain, undefine_domain_nvram, undefine_domain, close_connection,
}
use podman_bootc.World.Exec.{
  M, pure, fail, retry, for_each, or_crash, branch, if_nil, context, on_error, ignore, ◌>>=◌, ◌>>◌,
  act, pause, read, measure, list_domains,
}

-- `BootcVMLinux`; a nil domain or connection is `none`.
pub record BootcVmLinux : Type 0 where
  pub domain : Option ℕ
  pub libvirt_uri : Text
  pub libvirt_connection : Option ℕ
  pub common : BootcVmCommon
  pub open common use *

-- `libvirt.DOMAIN_RUNNING` and `libvirt.ERR_NO_DOMAIN`.
abbrev pub domain_running : ℕ
domain_running = 1

abbrev pub err_no_domain : ℕ
err_no_domain = 42

-- The timeout and the interval of `waitForVMToBeRunning`, in ms.
abbrev pub start_timeout : ℕ
start_timeout = 60 * 1000

abbrev pub start_interval : ℕ
start_interval = 1000

abbrev prefixed : Option Text → Option Text
prefixed none = none
prefixed (some id) = some (lit "podman-bootc-" ++ id)

-- `vmName(id)`, which panics where the id is shorter than twelve bytes.
unfoldable pub vm_name_of : Text → Option Text
vm_name_of id = prefixed (slice_to 12 id)

module _ (sys : System) where
  -- `(v *BootcVMLinux) loadExistingDomain()`.
  unfoldable pub load_existing_domain : BootcVmLinux → M BootcVmLinux
  load_existing_domain v =
      if_nil v.domain
        (do
          conn ← measure sys (connect v.libvirt_uri)
          name ← or_crash (vm_name_of v.image_id)
          branch (measure sys (lookup_domain conn name))
              (λ d. pure (record v { domain = some d; libvirt_connection = some conn }))
              (λ e.
                if has_libvirt_code (cause e) err_no_domain
                then pure (record v { domain = none; libvirt_connection = some conn })
                else fail e))
        (λ _. pure v)

  -- The value that `NewVM` builds before it looks for a domain.
  abbrev pub initial_vm : NewVmParameters → Text → Text → CacheLock → Text → BootcVmLinux
  initial_vm params long_id dir lock name = record {
    domain = none;
    libvirt_uri = params.libvirt_uri;
    libvirt_connection = none;
    common = record {
      vm_name = name;
      cache_dir = dir;
      disk_image_path = join (dir ∷ disk_image ∷ []);
      vm_username = [];
      user = params.user;
      ssh_identity = [];
      ssh_port = 0;
      remove_vm = false;
      background = false;
      cmd = [];
      pid_file = [];
      image_id = long_id;
      has_cloud_init = false;
      cloud_init_dir = [];
      cloud_init_args = [];
      cache_dir_lock = lock;
    };
  }

  -- `NewVM` once the lock is held.
  unfoldable pub open_locked : NewVmParameters → Text → Text → CacheLock → M BootcVmLinux
  open_locked params long_id dir lock = do
    name ← or_crash (vm_name_of long_id)
    on_error (load_existing_domain (initial_vm params long_id dir lock name)) (λ e. do
      ignore (unlock_cache sys lock)
      fail (wrap (lit "unable to load existing libvirt domain") e))

  -- `NewVM(params)`.
  unfoldable pub new_vm : NewVmParameters → M BootcVmLinux
  new_vm params =
      if is_empty params.image_id
      then fail (new_error (lit "image ID is required"))
      else if is_empty params.libvirt_uri
      then fail (new_error (lit "libvirt URI is required"))
      else (do
        (long_id, dir) ←
            context (lit "unable to get VM cache path")
              (get_vm_cache_path sys params.image_id params.user)
        lock ← lock_vm sys params dir
        open_locked params long_id dir lock)

  -- `(v *BootcVMLinux) IsRunning()`.
  unfoldable pub is_running : BootcVmLinux → M Bool
  is_running v = if_nil v.domain (pure false) (λ d. do
    state ← context (lit "unable to get VM state") (measure sys (domain_state d))
    pure (state == domain_running))

  -- `(v *BootcVMLinux) GetConfig()`.
  unfoldable pub get_config : BootcVmLinux → M VmConfig
  get_config v = do
    cfg ← load_config_file sys v.common
    running ← is_running v
    pure (record cfg { running = running })

  -- The loop of `Exists` over the domains.
  unfoldable pub any_named : Text → List ℕ → M Bool
  any_named name domains =
      for_each domains (pure false)
        (λ d again. do n ← read sys (domain_name d); if text_eq n name then pure true else again)

  -- `(v *BootcVMLinux) Exists()`.
  unfoldable pub exists : BootcVmLinux → M Bool
  exists v = do
    conn ← or_crash v.libvirt_connection
    domains ← context (lit "unable to list all domains") (list_domains sys conn)
    any_named v.vm_name domains

  -- `(v *BootcVMLinux) Shutdown()`.
  unfoldable pub shutdown : BootcVmLinux → M (Unit {0})
  shutdown v = do
    running ← context (lit "unable to check if VM is running") (is_running v)
    if running
        then (do
          d ← or_crash v.domain
          context (lit "unable to destroy VM") (act sys (destroy_domain d)))
        else pure tt

  -- The two ways to undefine a domain: the second is tried after any error of libvirt.
  unfoldable pub undefine : ℕ → M (Unit {0})
  undefine d =
      on_error (act sys (undefine_domain_nvram d))
        (λ e. if is_libvirt_error e then act sys (undefine_domain d) else fail e)

  -- `(v *BootcVMLinux) Delete()`.
  unfoldable pub delete : BootcVmLinux → M (Unit {0})
  delete v = do
    context (lit "unable to shutdown VM") (shutdown v)
    domain_exists ← context (lit "unable to check if VM exists") (exists v)
    if domain_exists
        then (do d ← or_crash v.domain; context (lit "unable to undefine VM") (undefine d))
        else pure tt

  -- `(v *BootcVMLinux) CloseConnection()`: the result of `Close` is dropped.
  unfoldable pub close_libvirt : BootcVmLinux → M (Unit {0})
  close_libvirt v = do
    conn ← or_crash v.libvirt_connection
    ignore (act sys (close_connection conn))

  -- `(v *BootcVMLinux) Unlock()`.
  unfoldable pub unlock_vm : BootcVmLinux → M (Unit {0})
  unlock_vm v = unlock_cache sys v.cache_dir_lock

  -- The loop of `waitForVMToBeRunning`. `rounds` is what is left of the timeout, in intervals.
  unfoldable pub poll_rounds : ℕ → ℕ → M (Unit {0})
  poll_rounds rounds d =
      retry rounds (fail (new_error (lit "VM did not start in 1m0s seconds"))) (λ again. do
        state ← context (lit "unable to get VM state") (measure sys (domain_state d))
        if state == domain_running then pure tt else (do pause sys start_interval; again))

  -- `(v *BootcVMLinux) waitForVMToBeRunning()`.
  unfoldable pub wait_for_vm_to_be_running : ℕ → M (Unit {0})
  wait_for_vm_to_be_running d = poll_rounds (start_timeout / start_interval) d

  -- The fields that `Run` sets first.
  abbrev pub with_parameters : BootcVmCommon → RunVmParameters → BootcVmCommon
  with_parameters v params = record v {
    ssh_port = params.ssh_port;
    remove_vm = params.remove_vm;
    background = params.background;
    cmd = params.cmd;
    has_cloud_init = params.cloud_init_data;
    cloud_init_dir = params.cloud_init_dir;
    vm_username = params.vm_user;
    ssh_identity = params.ssh_identity;
  }

  -- The first part of `Run`: a running VM is refused, and a stopped one is deleted.
  unfoldable pub clear_stopped : BootcVmLinux → M (Unit {0})
  clear_stopped v = if_nil v.domain (pure tt) (λ _. do
    running ← context (lit "unable to check if VM is running") (is_running v)
    if running
        then fail (new_error (lit "VM is already running"))
        else context (lit "unable to delete stopped VM") (delete v))

  -- `(v *BootcVMLinux) Run(params)`: the VM as it is after a successful run.
  unfoldable pub run : BootcVmLinux → RunVmParameters → M BootcVmLinux
  run v params = do
    let v' = record v { common = with_parameters v.common params }
    clear_stopped v'
    (common', xml) ←
        context (lit "unable to parse domain template") (parse_domain_template sys v'.common)
    conn ← or_crash v.libvirt_connection
    d ←
        context (lit "unable to define virtual machine domain")
          (measure sys (define_domain conn xml))
    context (lit "unable to start virtual machine domain") (act sys (create_domain d))
    context (lit "unable to wait for VM to be running") (wait_for_vm_to_be_running d)
    pure (record v { domain = some d; common = common' })
