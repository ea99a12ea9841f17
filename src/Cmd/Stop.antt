-- ===== src/Cmd/Stop.antt =====
-- cmd/stop.go: `podman-bootc stop ID`.
use podman_bootc.Base.{Text, List, first}
use podman_bootc.Config.{libvirt_uri_default}
use podman_bootc.User.{new_user}
use podman_bootc.Utils.Locks.{exclusive}
use podman_bootc.Vm.Platform.{BootcVm}
use podman_bootc.World.Calls.{System}
use podman_bootc.World.Exec.{M, or_crash, ignore, deferring, ◌>>=◌, ◌>>◌}

module _ {V : Type 0} (sys : System) (vm : BootcVm V) where
  -- The function that every command defers: it closes the connection and gives the lock back.
  unfoldable pub close_vm : V → M (Unit {0})
  close_vm v = do vm.close_connection v; ignore (vm.unlock v)

  -- `doStop`.
  unfoldable pub do_stop : List Text → M (Unit {0})
  do_stop args = do
    user ← new_user sys
    id ← or_crash (first args)
    v ← vm.new_vm (record {
      image_id = id;
      user = user;
      libvirt_uri = libvirt_uri_default;
      locking = exclusive;
    })
    deferring (close_vm v) (vm.delete v)
