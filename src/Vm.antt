-- ===== src/Vm.antt =====
-- pkg/vm: the virtual machine of a disk image. The parameters and the fields that the platforms share
-- are here, the operations in the modules below.
pub mod Cache
pub mod Config
pub mod Oem
pub mod CloudInit
pub mod Ssh
pub mod Template
pub mod Linux
pub mod Mac
pub mod Platform
pub mod Console
pub mod Krunkit
pub mod Gvproxy
pub mod Monitor
pub mod Locking
pub mod Neutral
pub mod Exclusive
pub mod Domains
pub mod Lookup
pub mod Waits
pub mod Dials
pub mod Stored
pub mod Calm
use podman_bootc.Base.{ℕ, Bool, List, Text}
use podman_bootc.User.{User}
use podman_bootc.Utils.Locks.{AccessMode, CacheLock}

-- `NewVMParameters`.
pub record NewVmParameters : Type 0 where
  pub image_id : Text
  pub user : User
  pub libvirt_uri : Text
  pub locking : AccessMode

-- `RunVMParameters`.
pub record RunVmParameters : Type 0 where
  pub vm_user : Text
  pub cloud_init_dir : Text
  pub cloud_init_data : Bool
  pub ssh_identity : Text
  pub ssh_port : ℕ
  pub cmd : List Text
  pub remove_vm : Bool
  pub background : Bool

-- `BootcVMCommon`.
pub record BootcVmCommon : Type 0 where
  pub vm_name : Text
  pub cache_dir : Text
  pub disk_image_path : Text
  pub vm_username : Text
  pub user : User
  pub ssh_identity : Text
  pub ssh_port : ℕ
  pub remove_vm : Bool
  pub background : Bool
  pub cmd : List Text
  pub pid_file : Text
  pub image_id : Text
  pub has_cloud_init : Bool
  pub cloud_init_dir : Text
  pub cloud_init_args : Text
  pub cache_dir_lock : CacheLock
