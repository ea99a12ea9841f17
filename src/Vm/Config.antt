-- ===== src/Vm/Config.antt =====
-- pkg/vm/vm.go: the configuration file of a VM, written by `run` and read by `list` and `ssh`.
use podman_bootc.Base.{ℕ, false, Text, lit, [], ◌∷◌, ◌++◌, slice_to}
use podman_bootc.Base.Int.{pos}
use podman_bootc.Config.{cfg_file}
use podman_bootc.Disk.{BootcDisk, get_size}
use podman_bootc.Go.Decimal.{format_int}
use podman_bootc.Go.Path.{join}
use podman_bootc.Vm.{BootcVmCommon}
use podman_bootc.World.Calls.{System, VmConfig, write_file, read_file}
use podman_bootc.World.Exec.{M, pure, context, answer, or_crash, ◌>>=◌, act, read, time_now}

module _ (sys : System) where
  -- The value that `WriteConfig` stores.
  unfoldable pub config_of : BootcVmCommon → BootcDisk → Text → ℕ → VmConfig
  config_of v disk id size = record {
    id = id;
    ssh_port = v.ssh_port;
    ssh_identity = v.ssh_identity;
    repo_tag = disk.repo_tag;
    created = sys.format_time disk.created_at;
    disk_size = format_int (pos size);
    running = false;
  }

  -- `(v *BootcVMCommon) WriteConfig(bootcDisk)`.
  unfoldable pub write_config : BootcVmCommon → BootcDisk → M (Unit {0})
  write_config v disk = do
    size ← context (lit "get disk size") (get_size sys disk)
    id ← or_crash (slice_to 12 v.image_id)
    context (lit "write config file") (
        act sys (
          write_file (join (v.cache_dir ∷ cfg_file ∷ []))
            (sys.marshal_config (config_of v disk id size))))

  -- `(v *BootcVMCommon) LoadConfigFile()`: the times and sizes come back as they are shown.
  unfoldable pub load_config_file : BootcVmCommon → M VmConfig
  load_config_file v = do
    content ← read sys (read_file (join (v.cache_dir ∷ cfg_file ∷ [])))
    cfg ← answer (sys.unmarshal_config content)
    created ← context (lit "error parsing created time") (answer (sys.parse_time cfg.created))
    now ← time_now sys
    size ← context (lit "error parsing disk size") (answer (sys.parse_float cfg.disk_size))
    pure (record cfg {
      created = sys.human_duration_between created now ++ lit " ago";
      disk_size = sys.human_size_with_precision size 3;
    })
