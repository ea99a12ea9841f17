-- ===== src/Vm/Platform.antt =====
-- pkg/vm/vm.go: the interface `BootcVM`, with the `NewVM` of the platform that a build has.
pub mod Locks
use podman_bootc.Base.{Bool}
use podman_bootc.Vm.{NewVmParameters, RunVmParameters, BootcVmCommon}
use podman_bootc.Vm.Linux.{BootcVmLinux}
use podman_bootc.Vm.Linux
use podman_bootc.Vm.Mac.{BootcVmMac}
use podman_bootc.Vm.Mac
use podman_bootc.World.Calls.{System, VmConfig}
use podman_bootc.World.Exec.{M}

-- `BootcVM` over the type `V` of the platform, as far as the commands call it. `common` is the embedded
-- `BootcVMCommon`, of which all platforms take `WriteConfig`, `WaitForSSHToBeReady`, `RunSSH`,
-- `DeleteFromCache` and `CacheDir`.
pub record BootcVm (V : Type 0) : Type 0 where
  pub common : V → BootcVmCommon
  pub with_common : V → BootcVmCommon → V
  pub new_vm : NewVmParameters → M V
  pub run : V → RunVmParameters → M V
  pub delete : V → M (Unit {0})
  pub is_running : V → M Bool
  pub get_config : V → M VmConfig
  pub close_connection : V → M (Unit {0})
  pub unlock : V → M (Unit {0})

-- The build for Linux.
abbrev pub linux_vm : System → BootcVm BootcVmLinux
linux_vm sys = record {
  common = λ v. v.common;
  with_common = λ v common. record v { common = common };
  new_vm = Linux.new_vm sys;
  run = Linux.run sys;
  delete = Linux.delete sys;
  is_running = Linux.is_running sys;
  get_config = Linux.get_config sys;
  close_connection = Linux.close_libvirt sys;
  unlock = Linux.unlock_vm sys;
}

-- The build for macOS.
abbrev pub mac_vm : System → BootcVm BootcVmMac
mac_vm sys = record {
  common = λ v. v.common;
  with_common = λ v common. record v { common = common };
  new_vm = Mac.new_vm sys;
  run = Mac.run sys;
  delete = Mac.delete sys;
  is_running = Mac.is_running sys;
  get_config = Mac.get_config sys;
  close_connection = Mac.close_connection sys;
  unlock = Mac.unlock_vm sys;
}
