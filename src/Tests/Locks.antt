-- ===== src/Tests/Locks.antt =====
-- The promises on locks, on the simulated system.
use podman_bootc.Vm.Platform.{linux_vm}
use podman_bootc.Base.{◌≡◌, ◌≢◌, refl, true, false, [], ◌∷◌, lit, text_eq, has_prefix, slice_to}
use podman_bootc.Cmd.Guards.{IsGuarded}
use podman_bootc.Cmd.Promises.{execute-keeps_locks, do_stop-IsGuarded, do_remove-IsGuarded}
use podman_bootc.Cmd.Rm.{do_remove}
use podman_bootc.Cmd.Root.{stop, execute}
use podman_bootc.Cmd.Stop.{close_vm, do_stop}
use podman_bootc.Go.Errors.{ok, panic}
use podman_bootc.Go.Path.{join}
use podman_bootc.Config.{libvirt_uri_default, project_name, cache_dir_name, disk_image}
use podman_bootc.User.{new_user, cache_dir, run_dir}
use podman_bootc.Utils.Files.{file_exists}
use podman_bootc.Utils.Locks.{new_cache_lock, try_lock_in, unlock}
use podman_bootc.Vm.Cache.{get_vm_cache_path, find_full_id, lock_vm, check_cache_dir}
use podman_bootc.Vm.Linux.{
  new_vm, open_locked, load_existing_domain, delete, shutdown, exists, any_named, undefine,
  is_running, close_libvirt, unlock_vm, vm_name_of,
}
use podman_bootc.Cmd.Keeps.{IsNoRemoval, do_run-IsNoRemoval}
use podman_bootc.Cmd.Starts.{do_run-ne-panic}
use podman_bootc.Cmd.Run.{OsVmConfig, do_run}
use podman_bootc.World.Events.{Extends}
use podman_bootc.World.Exec.{
  pure, fail, or_crash, attempt, context, on_error, deferring, branch, if_nil, ◌>>=◌, ignore,
  for_each, act, test, read, measure, read_dir, list_domains, current_user,
}
use podman_bootc.World.Judged.{ExtendsBy}
use podman_bootc.World.Locks.{held}
use podman_bootc.Tests.Sim.{calm, id_a}

-- `stop` of the running VM ends well.
stop_runs : (do_stop calm (linux_vm calm) (id_a ∷ []) []).0 ≡ ok tt
unfolding do_stop close_vm new_user new_vm get_vm_cache_path find_full_id lock_vm try_lock_in
    check_cache_dir file_exists open_locked load_existing_domain delete shutdown exists any_named
    undefine is_running close_libvirt unlock_vm unlock vm_name_of cache_dir run_dir join
    new_cache_lock slice_to text_eq has_prefix lit pure fail or_crash attempt context on_error
    deferring branch if_nil ◌>>=◌ ignore for_each act test read measure read_dir list_domains
    current_user libvirt_uri_default project_name cache_dir_name disk_image
stop_runs = refl

execute-keeps_locks_example :
    held (lit "/lock") (execute calm (linux_vm calm) [] (stop (id_a ∷ [])) []).1
    ≡ held (lit "/lock") []
execute-keeps_locks_example = execute-keeps_locks calm [] (stop (id_a ∷ [])) (lit "/lock") []

do_stop-IsGuarded_example :
    ExtendsBy (IsGuarded calm) [] (do_stop calm (linux_vm calm) (id_a ∷ []) []).1
do_stop-IsGuarded_example = do_stop-IsGuarded calm (id_a ∷ []) []

do_remove-IsGuarded_example :
    ExtendsBy (IsGuarded calm) [] (do_remove calm (linux_vm calm) false true (id_a ∷ []) []).1
do_remove-IsGuarded_example = do_remove-IsGuarded calm false true (id_a ∷ []) []

abbrev flags_rm : OsVmConfig
flags_rm = record {
  user = lit "root";
  cloud_init_dir = [];
  cloud_init_changed = false;
  background = false;
  remove_vm = true;
  quiet = true;
}

do_run-IsNoRemoval_example :
    Extends IsNoRemoval []
      (do_run calm
        (linux_vm calm)
        flags_rm
        (record { filesystem = []; root_size_max = []; disk_size = [] })
        (lit "quay.io/a" ∷ [])
        []).1
do_run-IsNoRemoval_example =
    do_run-IsNoRemoval calm flags_rm
      (record { filesystem = []; root_size_max = []; disk_size = [] }) (lit "quay.io/a" ∷ []) []

do_run-ne-panic_example :
    (do_run calm
      (linux_vm calm)
      flags_rm
      (record { filesystem = []; root_size_max = []; disk_size = [] })
      (lit "quay.io/a" ∷ [])
      []).0
    ≢ panic
do_run-ne-panic_example =
    do_run-ne-panic calm flags_rm (record { filesystem = []; root_size_max = []; disk_size = [] })
      (lit "quay.io/a") [] []
