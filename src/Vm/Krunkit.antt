-- ===== src/Vm/Krunkit.antt =====
-- pkg/vm/krunkit.go: the virtual machine monitor krunkit, its command line and its process.
pub mod CommandLine
pub mod Spawned
use podman_bootc.Base.{ℕ, List, [], ◌∷◌, ◌++◌, Text, lit, none}
use podman_bootc.Base.Int.{ℤ, pos}
use podman_bootc.Go.Decimal.{format_int}
use podman_bootc.Go.Errors.{wrap}
use podman_bootc.Utils.Files.{write_pid_file}
use podman_bootc.World.Calls.{System}
use podman_bootc.World.Commands.{Cmd, start_cmd, cancel_cmd, wait_cmd}
use podman_bootc.World.Exec.{M, pure, fail, or_crash, context, on_error, ignore, ◌>>=◌, ◌>>◌}

abbrev pub krunkit_binary_name : Text
krunkit_binary_name = lit "krunkit"

abbrev pub default_cpus : ℤ
default_cpus = pos 4

abbrev pub default_memory : ℤ
default_memory = pos 2048

-- `krunkitParams`.
pub record KrunkitParams : Type 0 where
  pub disk : Text
  pub net_socket : Text
  pub oem_string : Text
  pub pid_file : Text

-- `krunkit`.
pub record Krunkit : Type 0 where
  pub pid_file : Text
  pub cmd : Cmd

-- `krunkitCmdLine`.
pub record KrunkitCmdLine : Type 0 where
  pub cpus : ℤ
  pub memory : ℤ
  pub devices : List Text
  pub oem_strings : List Text

-- `newKrunkitCmdLine(cpus, memory)`.
abbrev pub new_krunkit_cmd_line : ℤ → ℤ → KrunkitCmdLine
new_krunkit_cmd_line cpus memory = record {
  cpus = cpus;
  memory = memory;
  devices = [];
  oem_strings = [];
}

-- The methods that add to a command line return the line as it is then.
abbrev pub add_device : KrunkitCmdLine → Text → KrunkitCmdLine
add_device kc device = record kc { devices = kc.devices ++ (device ∷ []) }

abbrev pub add_rng_device : KrunkitCmdLine → KrunkitCmdLine
add_rng_device kc = add_device kc (lit "virtio-rng")

abbrev pub add_block_device : KrunkitCmdLine → Text → KrunkitCmdLine
add_block_device kc disk_abs_path = add_device kc (lit "virtio-blk,path=" ++ disk_abs_path)

abbrev pub add_network_device : KrunkitCmdLine → Text → KrunkitCmdLine
add_network_device kc socket_abs_path =
    add_device kc
      (lit "virtio-net,unixSocketPath=" ++ (socket_abs_path ++ lit ",mac=5a:94:ef:e4:0c:ee"))

abbrev pub add_oem_string : KrunkitCmdLine → Text → KrunkitCmdLine
add_oem_string kc oem_str = record kc { oem_strings = kc.oem_strings ++ (oem_str ∷ []) }

-- A loop of `asSlice`: each value behind its flag.
unfoldable pub flagged : Text → List Text → List Text
flagged flag [] = []
flagged flag (value ∷ values) = flag ∷ value ∷ flagged flag values

-- `(kc *krunkitCmdLine) asSlice()`.
unfoldable pub as_slice : KrunkitCmdLine → List Text
unfolding flagged
as_slice kc =
    lit "--cpus"
    ∷ format_int kc.cpus
    ∷ lit "--memory"
    ∷ format_int kc.memory
    ∷ (flagged (lit "--device") kc.devices ++ flagged (lit "--oem-string") kc.oem_strings)

-- The command line that `newKrunkit` builds.
unfoldable pub cmd_line_of : KrunkitParams → KrunkitCmdLine
cmd_line_of params =
    let kc = add_rng_device (new_krunkit_cmd_line default_cpus default_memory) in
    let kc' = add_network_device (add_block_device kc params.disk) params.net_socket in
    add_oem_string kc' params.oem_string

-- `newKrunkit(ctx, binaryPath, params)`.
unfoldable pub new_krunkit : Text → KrunkitParams → Krunkit
unfolding as_slice cmd_line_of
new_krunkit binary_path params = record {
  pid_file = params.pid_file;
  cmd = record { path = binary_path; args = as_slice (cmd_line_of params); process = none };
}

module _ (sys : System) where
  -- `(k *krunkit) start()`, once the process runs: where its id cannot be written, it is killed.
  unfoldable pub record_process : Krunkit → M (Unit {0})
  record_process k = do
    pid ← or_crash k.cmd.process
    on_error (write_pid_file sys k.pid_file (pos pid)) (λ e. do
      ignore (cancel_cmd sys k.cmd)
      fail (wrap (lit "writing pid file " ++ k.pid_file) e))

  -- `(k *krunkit) start()`.
  unfoldable pub start_krunkit_process : Krunkit → M Krunkit
  start_krunkit_process k = do
    cmd ← context (lit "unable to start krunkit") (start_cmd sys k.cmd)
    let k' = record k { cmd = cmd }
    record_process k'
    pure k'

  -- `(k *krunkit) wait()`.
  unfoldable pub wait_krunkit : Krunkit → M (Unit {0})
  wait_krunkit k = wait_cmd sys k.cmd
