-- ===== src/Vm/Mac.antt =====
-- pkg/vm/vm_darwin.go: the VM on macOS, whose monitor process is known by a pid file.
pub mod Looks
pub mod Lifecycle
pub mod Locking
pub mod Exclusive
use podman_bootc.Base.{
  Bool, true, false, not, [], ◌∷◌, ◌++◌, Text, lit, is_empty, slice_to, if◌then◌else◌,
}
use podman_bootc.Base.Int.{ℤ, pos, negsuc, eq_ℤ}
use podman_bootc.Config.{disk_image, run_pid_file}
use podman_bootc.Go.Decimal.{format_int}
use podman_bootc.Go.Errors.{ok, new_error}
use podman_bootc.Go.Path.{join}
use podman_bootc.User.{cache_dir}
use podman_bootc.Utils.Files.{read_pid_file, file_exists}
use podman_bootc.Utils.Locks.{CacheLock}
use podman_bootc.Utils.Locks.{unlock as unlock_cache}
use podman_bootc.Utils.Process.{sigint, is_process_alive}
use podman_bootc.Vm.{NewVmParameters, RunVmParameters, BootcVmCommon}
use podman_bootc.Vm.Cache.{get_vm_cache_path, lock_vm}
use podman_bootc.Vm.Config.{load_config_file}
use podman_bootc.World.Calls.{
  System, VmConfig, find_process, signal_process, executable, eval_symlinks, abs_path,
  start_command,
}
use podman_bootc.World.Exec.{
  M, pure, fail, or_crash, if_nil, attempt, context, ◌>>=◌, ◌>>◌, act, read, measure,
}

-- `BootcVMMac`.
pub record BootcVmMac : Type 0 where
  pub socket_file : Text
  pub common : BootcVmCommon
  pub open common use *

-- The value that `NewVM` returns.
abbrev pub initial_vm : NewVmParameters → Text → Text → CacheLock → Text → BootcVmMac
initial_vm params long_id dir lock short_id = record {
  socket_file = join (cache_dir params.user ∷ (short_id ++ lit "-console.sock") ∷ []);
  common = record {
    vm_name = [];
    cache_dir = dir;
    disk_image_path = join (dir ∷ disk_image ∷ []);
    vm_username = [];
    user = params.user;
    ssh_identity = [];
    ssh_port = 0;
    remove_vm = false;
    background = false;
    cmd = [];
    pid_file = join (dir ∷ run_pid_file ∷ []);
    image_id = long_id;
    has_cloud_init = false;
    cloud_init_dir = [];
    cloud_init_args = [];
    cache_dir_lock = lock;
  };
}

-- The fields that `Run` sets first.
abbrev pub with_parameters : BootcVmCommon → RunVmParameters → BootcVmCommon
with_parameters b params = record b {
  ssh_port = params.ssh_port;
  remove_vm = params.remove_vm;
  background = params.background;
  cmd = params.cmd;
  has_cloud_init = params.cloud_init_data;
  cloud_init_dir = params.cloud_init_dir;
  vm_username = params.vm_user;
  ssh_identity = params.ssh_identity;
}

module _ (sys : System) where
  -- `NewVM(params)`.
  unfoldable pub new_vm : NewVmParameters → M BootcVmMac
  new_vm params =
      if is_empty params.image_id then fail (new_error (lit "image ID is required")) else (do
        (long_id, dir) ←
            context (lit "unable to get VM cache path")
              (get_vm_cache_path sys params.image_id params.user)
        lock ← lock_vm sys params dir
        short_id ← or_crash (slice_to 12 long_id)
        pure (initial_vm params long_id dir lock short_id))

  -- `pid != -1 && utils.IsProcessAlive(pid)`.
  unfoldable pub runs_as : ℤ → M Bool
  runs_as pid = if eq_ℤ pid (negsuc 0) then pure false else is_process_alive sys pid

  -- `(b *BootcVMMac) GetConfig()`: an unreadable pid file counts as the process id -1.
  unfoldable pub get_config : BootcVmMac → M VmConfig
  get_config b = do
    cfg ← load_config_file sys b.common
    r ← attempt (read_pid_file sys (join (b.cache_dir ∷ run_pid_file ∷ [])))
    running ← runs_as (elim r [ ok pid ↦ pid | _ ↦ negsuc 0 ])
    pure (record cfg { running = running })

  -- `(b *BootcVMMac) Run(params)`: the VM as it is after a successful run, once its monitor was
  -- started.
  unfoldable pub run : BootcVmMac → RunVmParameters → M BootcVmMac
  run b params = do
    let b' = record b { common = with_parameters b.common params }
    self ← context (lit "getting executable path") (read sys executable)
    target ← context (lit "following executable symlink") (read sys (eval_symlinks self))
    exec_path ← context (lit "getting executable absolute path") (read sys (abs_path target))
    _ ← measure sys (
        start_command exec_path (
          lit "vmmon"
          ∷ b'.image_id
          ∷ b'.vm_username
          ∷ b'.ssh_identity
          ∷ format_int (pos b'.ssh_port)
          ∷ []))
    pure b'

  -- `(b *BootcVMMac) IsRunning()`: any problem with the pid file before it is read counts as absence.
  unfoldable pub is_running : BootcVmMac → M Bool
  is_running b = do
    (pid_file_exists, _) ← file_exists sys b.pid_file
    if not pid_file_exists
        then pure false
        else (do pid ← context (lit "reading pid file") (read_pid_file sys b.pid_file); runs_as pid)

  -- `(b *BootcVMMac) Delete()`.
  unfoldable pub delete : BootcVmMac → M (Unit {0})
  delete b = do
    running ← context (lit "checking if VM is running") (is_running b)
    if not running then pure tt else (do
      pid ← context (lit "reading pid file") (read_pid_file sys b.pid_file)
      context (lit "process not found while attempting to delete VM") (act sys (find_process pid))
      act sys (signal_process pid sigint))

  -- `(b *BootcVMMac) Exists()`: the Boolean with the error beside it.
  unfoldable pub exists : BootcVmMac → M Bool
  exists b = do (found, problem) ← file_exists sys b.pid_file; if_nil problem (pure found) fail

  -- `(v *BootcVMMac) Unlock()`.
  unfoldable pub unlock_vm : BootcVmMac → M (Unit {0})
  unlock_vm b = unlock_cache sys b.cache_dir_lock

  -- `(b *BootcVMMac) CloseConnection()` and `PrintConsole()` do nothing.
  unfoldable pub close_connection : BootcVmMac → M (Unit {0})
  close_connection b = pure tt

  unfoldable pub print_console : BootcVmMac → M (Unit {0})
  print_console b = pure tt
