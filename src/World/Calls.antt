-- ===== src/World/Calls.antt =====
-- The calls that leave the program, by the kind of their answer, and the history of a run.
use podman_bootc.Base.{ℕ, Bool, List, Text, Option}
use podman_bootc.Base.Int.{ℤ}
use podman_bootc.Go.Errors.{Error}

-- Calls that return only an error. A domain and a connection of libvirt are the handles that libvirt
-- returned; a process is its id.
pub data Action : Type 0 where
  write_file : Text → Text → Action
  remove remove_all mkdir_all : Text → Action
  rename : Text → Text → Action
  open_file : Text → Action
  truncate_file : Text → ℤ → Action
  set_xattr : Text → Text → Text → Action
  run_command : Text → List Text → Action
  wait_command : ℕ → Action
  cancel_command : ℕ → Action
  find_process : ℤ → Action
  signal_process : ℤ → ℕ → Action
  sleep : ℕ → Action
  parse_private_key : Text → Action
  dial_ssh : Text → ℕ → Action
  dial_tcp : ℕ → Action
  close_socket : ℕ → Action
  open_console : ℕ → ℕ → Action
  open_stderr_pipe : Action
  unlock : Text → Action
  create_domain destroy_domain undefine_domain_nvram undefine_domain : ℕ → Action
  close_connection : ℕ → Action
  connect_podman : Text → Text → Action
  get_provider get_machine_dirs : Action
  pull_image : Text → Action
  remove_container : Text → Action

-- Calls that answer a Boolean: `flock.TryLock` and `flock.TryRLock`.
pub data Test : Type 0 where
  try_lock try_rlock : Text → Test

-- Calls that answer a text.
pub data Read : Type 0 where
  read_file : Text → Read
  get_xattr : Text → Text → Read
  create_temp : Text → Text → Read
  look_path : Text → Read
  abs_path : Text → Read
  executable : Read
  eval_symlinks : Text → Read
  read_stderr : Read
  connection_info : Read
  domain_name : ℕ → Read
  command_output : Text → List Text → Read

-- Calls that answer a number: a size, a port, a process id, a handle of libvirt, the state of a
-- domain, or how many bytes came from a stream.
pub data Measure : Type 0 where
  stat_size : Text → Measure
  free_port : Measure
  start_command : Text → List Text → Measure
  connect : Text → Measure
  lookup_domain : ℕ → Text → Measure
  define_domain : ℕ → Text → Measure
  domain_state : ℕ → Measure
  new_stream : ℕ → Measure
  receive : ℕ → Measure

-- One entry of a directory.
pub record Entry : Type 0 where
  pub name : Text
  pub is_dir : Bool

-- What the code reads of an `ImageInspectReport`.
pub record ImageData : Type 0 where
  pub id : Text
  pub size : ℤ
  pub repo_tags : List Text

-- What the code reads of an `os/user.User`.
pub record UserData : Type 0 where
  pub home_dir : Text
  pub username : Text

-- What the code reads of a machine configuration of podman v5.
pub record MachineConfig : Type 0 where
  pub identity_path : Text
  pub rootful : Bool

-- `MachineList` and `MachineInspect` of pkg/utils/types.go, the second with its nested fields.
pub record MachineList : Type 0 where
  pub name : Text
  pub running : Bool
  pub default : Bool

pub record MachineInspect : Type 0 where
  pub socket_path : Text
  pub identity_path : Text
  pub rootful : Bool

-- What the code reads of an `entities.ImageSummary`.
pub record ImageSummary : Type 0 where
  pub id : Text
  pub created : ℤ
  pub size : ℤ
  pub repo_tags : List Text
  pub history : List Text

-- What `reference.Parse` of the package distribution returns, as far as the code looks at it.
pub data Reference : Type 0 where
  unnamed : Reference
  named : Text → Reference
  tagged : Text → Text → Reference

-- An answer from outside: a value or an error.
pub data Answer (A : Type 0) : Type 0 where
  done : A → Answer A
  failed : Error → Answer A

-- A call and its answer.
pub data Event : Type 0 where
  acted : Action → Answer (Unit {0}) → Event
  tested : Test → Answer Bool → Event
  answered : Read → Answer Text → Event
  measured : Measure → Answer ℕ → Event
  listed : Text → Answer (List Entry) → Event
  listed_domains : ℕ → Answer (List ℕ) → Event
  inspected : Text → Answer ImageData → Event
  user_found : Answer UserData → Event
  machine_loaded : Answer MachineConfig → Event
  images_listed : Text → Text → Answer (List ImageSummary) → Event

-- The events of a run, the last one first.
abbrev pub Trace : Type 0
Trace = List Event

-- What is stored in bc.cfg of a VM, and shown by `list`: `BootcVMConfig` of pkg/vm/vm.go.
pub record VmConfig : Type 0 where
  pub id : Text
  pub ssh_port : ℕ
  pub ssh_identity : Text
  pub repo_tag : Text
  pub created : Text
  pub disk_size : Text
  pub running : Bool

-- The first fields are fixed for a run: `runtime.GOOS`, `xdg.RuntimeDir`, the environment, whether
-- standard input is a terminal. The next are pure functions of other packages: sizes and durations
-- for people (go-units), times in RFC 3339, floats by their bits, JSON, levels of the log (logrus),
-- `ExactArgs` and `MinimumNArgs` (cobra), and the arguments that gvisor-tap-vsock makes of an SSH
-- port, a pid file and a socket. The clock reads seconds.
pub record System : Type 0 where
  pub is_darwin : Bool
  pub xdg_runtime_dir : Text
  pub lookup_env : Text → Option Text
  pub is_terminal : Bool
  pub from_human_size : Text → Answer ℤ
  pub human_size_with_precision : ℕ → ℕ → Text
  pub human_duration_between : ℕ → ℕ → Text
  pub format_time : ℕ → Text
  pub parse_time : Text → Answer ℕ
  pub parse_float : Text → Answer ℕ
  pub marshal_config : VmConfig → Text
  pub unmarshal_config : Text → Answer VmConfig
  pub marshal_meta : Text → Text
  pub unmarshal_meta : Text → Answer Text
  pub unmarshal_machine_list : Text → Answer (List MachineList)
  pub unmarshal_machine_inspect : Text → Answer (List MachineInspect)
  pub parse_level : Text → Answer (Unit {0})
  pub exact_args : ℕ → List Text → Answer (Unit {0})
  pub minimum_args : ℕ → List Text → Answer (Unit {0})
  pub parse_reference : Text → Answer Reference
  pub human_size_of : ℤ → Text
  pub human_duration_since : ℤ → ℕ → Text
  pub format_time_of : ℤ → Text
  pub gvproxy_cmdline : ℤ → Text → Text → List Text
  pub clock : Trace → ℕ
  pub act : Trace → Action → Answer (Unit {0})
  pub test : Trace → Test → Answer Bool
  pub read : Trace → Read → Answer Text
  pub measure : Trace → Measure → Answer ℕ
  pub read_dir : Trace → Text → Answer (List Entry)
  pub list_domains : Trace → ℕ → Answer (List ℕ)
  pub inspect_image : Trace → Text → Answer ImageData
  pub current_user : Trace → Answer UserData
  pub load_machine : Trace → Answer MachineConfig
  pub list_images : Trace → Text → Text → Answer (List ImageSummary)
