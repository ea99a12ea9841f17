-- ===== src/Lib.antt =====
-- podman-bootc: bootable containers run as virtual machines, on Linux by libvirt and on macOS by krunkit.
--
-- The program is a command line tool. A command (cmd/) finds the user and the directory of a VM in the
-- cache, takes the lock file of the directory, asks libvirt for the domain of the VM, acts, and gives
-- the lock back in a deferred function. `run` first makes the disk image of the VM out of a container
-- image (pkg/bootc), by the installer in a podman container. On macOS `run` starts the program again
-- as `vmmon`, which starts gvproxy for the network and krunkit for the VM and waits for them.
--
-- The calls that leave the program are not modelled but taken as they come: a `System` (World/Calls)
-- answers each call by any function of all that happened before. A program is a function from the
-- history to a result, which is a value, an error or a panic, and a longer history (World/Exec); its
-- state is what the code passes along as structs. `deferring` is `defer`, `context` is `fmt.Errorf`
-- with `%w`, `branch` and `on_error` are tests of an error. The theorems on programs speak of
-- the history: which locks are held after it (World/Locks), what each event finds (World/Judged),
-- which processes of this program run (World/Processes). World/Interleaved has the histories of several
-- processes side by side; there the lock library answers true only where the others' locks allow it,
-- which is its documented behaviour. An `Unlock` counts as giving the lock back whatever it answers: an
-- error of flock's unlock, after which the lock stays until the process ends, is not told apart.
--
-- Which file models what:
--   Config, User, Credentials: pkg/config/config.go, pkg/user/user.go, pkg/credentials/ssh.go.
--   Utils/Locks, Files, Process, Errors, Machine, Net: locks.go, file.go, process.go, errors.go,
--     podman.go and net.go of pkg/utils.
--   Disk, Disk/Size, Disk/Command, Disk/Install: pkg/bootc/bootc_disk.go.
--   Vm, Vm/Cache, Vm/Config, Vm/Ssh: pkg/vm/vm.go; Vm/Oem and Vm/CloudInit: pkg/vm/oemstring.go and
--     pkg/vm/cloudinit.go; Vm/Template: pkg/vm/domain-template.xml; Vm/Linux and Vm/Console:
--     pkg/vm/vm_linux.go.
--   Vm/Platform: the interface `BootcVM` of pkg/vm/vm.go, over which the commands are written, and the
--     VM on libvirt and the VM on macOS as the two that fill it.
--   Vm/Mac, Vm/Krunkit, Vm/Gvproxy, Vm/Monitor: pkg/vm/vm_darwin.go, krunkit.go, gvproxy.go and
--     monitor.go; World/Commands: what they use of Go's exec.Cmd.
--   Cmd/Stop, Ssh, Rm, List, Run, Images, Vmmon, Root: the files of cmd/ of these names; Cmd/Root also
--     has podman-bootc.go, and the commands of a build for macOS, which has `vmmon` too. Cmd/Images has
--     the rows of a table, Cmd/Images/Order its order and Cmd/Images/Columns what its columns show.
--   Go: what the code uses of Go's errors, path/filepath, strconv and encoding/base64. Base/Int: int64
--     with its wrap-around.
-- The names of functions are those of the source, in lower case with underscores: `do_stop` is
-- `doStop`, `new_vm` is `NewVM`. The other modules prove: Locking, Neutral and Exclusive for locks,
-- Refines and Exclusion for locks among processes, Guarded, Guards (with Harmless, Within and
-- Domains), MacGuards, Spares and Keeps for what is destroyed, Published, Renames and Cleanup for
-- disks, Calm and Starts for panics, Processes, Spawned and Lifecycle for the processes on macOS, Waits,
-- Dials, Backoff and Rounds for loops, Stored, PidFiles, CommandLine and Go/Decimal/RoundTrip for
-- what is written and read back. Tests runs the model on simulated systems.
--
-- Bounds. Texts are lists of bytes; sizes of disks are int64 and wrap around. The loops with a timeout
-- run on the number of rounds that fit in it, which is the timeout divided by the interval, since each
-- round adds one interval to what has elapsed: 60 for the start of a domain, 120 for SSH. The loop of
-- PrintConsole, which has no bound of its own, runs on fuel, which is a bound on its rounds (Vm/Console and
-- Vm/Console/Rounds). `time.Sleep` counts its own time only.
--
-- Not modelled: the goroutines that wait for gvproxy and that copy the console during `run`, log output,
-- the header and the layout of tables, the parsing of command lines (cobra), the tests.
pub mod Base
pub mod Go
pub mod World
pub mod Config
pub mod User
pub mod Utils
pub mod Credentials
pub mod Disk
pub mod Vm
pub mod Cmd
pub mod Tests
