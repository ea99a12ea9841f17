-- ===== src/Vm/Platform/Locks.antt =====
-- pkg/vm: what the commands rely on for the locks, on each platform.
use podman_bootc.Base.{ℕ, Bool, true, ◌≡◌, refl, Text, Option, none, some, is_some}
use podman_bootc.Base.Int.{ℤ}
use podman_bootc.Utils.Files.{read_pid_file, file_exists}
use podman_bootc.Utils.Locks.{unlock}
use podman_bootc.Utils.Process.{is_process_alive}
use podman_bootc.Vm.{NewVmParameters, RunVmParameters}
use podman_bootc.Vm.Linux.{BootcVmLinux, close_libvirt}
use podman_bootc.Vm.Linux
use podman_bootc.Vm.Locking
use podman_bootc.Vm.Mac.{BootcVmMac, runs_as}
use podman_bootc.Vm.Mac
use podman_bootc.Vm.Mac.Locking as MacLocking
use podman_bootc.Vm.Neutral
use podman_bootc.Vm.Platform.{BootcVm, linux_vm, mac_vm}
use podman_bootc.World.Brackets.{Acquires, GivesBack, GivesBack-after, GivesBack-unlock}
use podman_bootc.World.Returns.{Returns}
use podman_bootc.World.Calls.{System, close_connection, unlock as unlock_call}
use podman_bootc.World.Events.{Does, does_rules}
use podman_bootc.World.Exec.{or_crash, pure, ignore, act, ◌>>=◌, ◌>>◌}
use podman_bootc.World.Locks.{IsNeutral}

-- The laws of a platform: `NewVM` takes the lock of the VM that it returns, the closing of a VM
-- gives it back, and nothing else touches a lock. `is_open` is what `NewVM` leaves for the closing.
pub record KeepsLocks {V : Type 0} (vm : BootcVm V) : Type 0 where
  pub is_open : V → Bool
  pub new_vm-Acquires :
      (params : NewVmParameters)
      → Acquires (λ v. (vm.common v).cache_dir_lock.path) (vm.new_vm params)
  pub new_vm-open : (params : NewVmParameters) → Returns (λ v. is_open v ≡ true) (vm.new_vm params)
  pub close-GivesBack :
      (v : V)
      → is_open v ≡ true
      → GivesBack (vm.common v).cache_dir_lock.path (vm.close_connection v >> ignore (vm.unlock v))
  pub run-IsNeutral : (v : V) (params : RunVmParameters) → Does IsNeutral (vm.run v params)
  pub delete-IsNeutral : (v : V) → Does IsNeutral (vm.delete v)
  pub is_running-IsNeutral : (v : V) → Does IsNeutral (vm.is_running v)
  pub get_config-IsNeutral : (v : V) → Does IsNeutral (vm.get_config v)

module _ (sys : System) where
  closing-GivesBack :
      (conn : Option ℕ) (p : Text)
      → is_some conn ≡ true
      → GivesBack p (
          (do c ← or_crash conn; ignore (act sys (close_connection c)))
          >> ignore (act sys (unlock_call p)))
  unfolding or_crash pure ◌>>=◌
  closing-GivesBack none p h = cc
  closing-GivesBack (some c) p h =
      GivesBack-after sys (close_connection c) tt (GivesBack-unlock sys p)

  close_linux-GivesBack :
      (v : BootcVmLinux)
      → is_some v.libvirt_connection ≡ true
      → GivesBack v.cache_dir_lock.path (close_libvirt sys v >> ignore (Linux.unlock_vm sys v))
  unfolding close_libvirt Linux.unlock_vm unlock
  close_linux-GivesBack v h = closing-GivesBack v.libvirt_connection v.cache_dir_lock.path h

  close_mac-GivesBack :
      (v : BootcVmMac)
      → GivesBack v.cache_dir_lock.path (Mac.close_connection sys v >> ignore (Mac.unlock_vm sys v))
  unfolding Mac.close_connection Mac.unlock_vm unlock pure ◌>>=◌
  close_mac-GivesBack v = record { at = (GivesBack-unlock sys v.cache_dir_lock.path).at }

  runs_as-IsNeutral : (pid : ℤ) → Does IsNeutral (runs_as sys pid)
  unfolding runs_as is_process_alive
  runs_as-IsNeutral pid = search does_rules depth 20

  pub read_pid_file-IsNeutral : (path : Text) → Does IsNeutral (read_pid_file sys path)
  unfolding read_pid_file
  read_pid_file-IsNeutral path = search does_rules depth 20

  pub mac_is_running-IsNeutral : (v : BootcVmMac) → Does IsNeutral (Mac.is_running sys v)
  unfolding Mac.is_running file_exists
  mac_is_running-IsNeutral v =
      search (does_rules, runs_as-IsNeutral, read_pid_file-IsNeutral) depth 20

  pub mac_delete-IsNeutral : (v : BootcVmMac) → Does IsNeutral (Mac.delete sys v)
  unfolding Mac.delete
  mac_delete-IsNeutral v =
      search (does_rules, mac_is_running-IsNeutral, read_pid_file-IsNeutral) depth 20

  mac_run-IsNeutral :
      (v : BootcVmMac) (params : RunVmParameters) → Does IsNeutral (Mac.run sys v params)
  unfolding Mac.run
  mac_run-IsNeutral v params = search does_rules depth 20

  mac_get_config-IsNeutral : (v : BootcVmMac) → Does IsNeutral (Mac.get_config sys v)
  unfolding Mac.get_config
  mac_get_config-IsNeutral v =
      search
        (does_rules, runs_as-IsNeutral, read_pid_file-IsNeutral, Neutral.load_config_file-IsNeutral)
        depth 20

  pub linux-KeepsLocks : KeepsLocks (linux_vm sys)
  linux-KeepsLocks = record {
    is_open = λ v. is_some v.libvirt_connection;
    new_vm-Acquires = Locking.new_vm-Acquires sys;
    new_vm-open = Locking.new_vm-connected sys;
    close-GivesBack = close_linux-GivesBack;
    run-IsNeutral = Neutral.run-IsNeutral sys;
    delete-IsNeutral = Neutral.delete-IsNeutral sys;
    is_running-IsNeutral = Neutral.is_running-IsNeutral sys;
    get_config-IsNeutral = Neutral.get_config-IsNeutral sys;
  }

  pub mac-KeepsLocks : KeepsLocks (mac_vm sys)
  mac-KeepsLocks = record {
    is_open = λ v. true;
    new_vm-Acquires = λ params. record { at = MacLocking.new_vm-locks sys params };
    new_vm-open = λ params. record { at = λ t v e. refl };
    close-GivesBack = λ v h. close_mac-GivesBack v;
    run-IsNeutral = mac_run-IsNeutral;
    delete-IsNeutral = mac_delete-IsNeutral;
    is_running-IsNeutral = mac_is_running-IsNeutral;
    get_config-IsNeutral = mac_get_config-IsNeutral;
  }
