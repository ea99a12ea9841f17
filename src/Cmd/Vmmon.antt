-- ===== src/Cmd/Vmmon.antt =====
-- cmd/vmmon.go: `vmmon <ID> <username> <ssh identity> <ssh port>`, the process behind a VM on macOS.
pub mod Calm
pub mod Locks
use podman_bootc.Base.{List, [], ◌∷◌, Text, lit, Option, none, some, slice_to, get_elem?}
use podman_bootc.Go.Decimal.{parse_int}
use podman_bootc.Go.Errors.{new_error}
use podman_bootc.Go.Path.{join}
use podman_bootc.User.{new_user, cache_dir, run_dir}
use podman_bootc.Vm.Monitor.{start_monitor}
use podman_bootc.World.Calls.{System, mkdir_all}
use podman_bootc.World.Exec.{M, pure, fail, or_crash, if_nil, ◌>>=◌, ◌>>◌, act}

module _ (sys : System) where
  -- `doMon(_, args)`.
  unfoldable pub do_mon : List Text → M (Unit {0})
  do_mon args = do
    usr ← new_user sys
    full_image_id ← or_crash (get_elem? args 0)
    username ← or_crash (get_elem? args 1)
    ssh_identity ← or_crash (get_elem? args 2)
    port_arg ← or_crash (get_elem? args 3)
    if_nil (parse_int port_arg) (fail (new_error (lit "invalid ssh port: strconv.Atoi")))
        λ ssh_port. do
          short_id ← or_crash (slice_to 12 full_image_id)
          let dir = join (run_dir sys usr ∷ short_id ∷ [])
          act sys (mkdir_all dir)
          start_monitor sys (record {
            cache_dir = join (cache_dir usr ∷ full_image_id ∷ []);
            run_dir = dir;
            username = username;
            ssh_identity = ssh_identity;
            ssh_port = ssh_port;
          })
