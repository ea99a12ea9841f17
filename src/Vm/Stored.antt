-- ===== src/Vm/Stored.antt =====
-- pkg/vm/vm.go: `WriteConfig` and `LoadConfigFile` together.
use podman_bootc.Base.{ℕ, ◌≡◌, refl, [], ◌∷◌, ◌++◌, Text, lit}
use podman_bootc.Base.Int.{pos}
use podman_bootc.Config.{cfg_file}
use podman_bootc.Disk.{BootcDisk}
use podman_bootc.Go.Decimal.{format_int}
use podman_bootc.Go.Errors.{ok}
use podman_bootc.Go.Path.{join}
use podman_bootc.Vm.{BootcVmCommon}
use podman_bootc.Vm.Config.{config_of, write_config, load_config_file}
use podman_bootc.World.Answers.{After, Ensures-act, Ensures-mono}
use podman_bootc.World.Calls.{System, VmConfig, Trace, acted, answered, done, write_file, read_file}
use podman_bootc.World.Ensures.{Ensures, Any, Ensures-any, Ensures-bind, Ensures-context}
use podman_bootc.World.Exec.{pure, context, answer, read, time_now, ◌>>=◌}

-- JSON, times and sizes come back as they were written, and so does a file right after its writing.
pub record IsFaithful (sys : System) : Type 0 where
  pub config_back : (c : VmConfig) → sys.unmarshal_config (sys.marshal_config c) ≡ done c
  pub time_back : (n : ℕ) → sys.parse_time (sys.format_time n) ≡ done n
  pub size_back : (n : ℕ) → (k : ℕ) × (sys.parse_float (format_int (pos n)) ≡ done k)
  pub file_back :
      (path content : Text) (t : Trace)
      → sys.read (acted (write_file path content) (done tt) ∷ t) (read_file path) ≡ done content

-- The path of the configuration file.
abbrev cfg_path : BootcVmCommon → Text
cfg_path v = join (v.cache_dir ∷ cfg_file ∷ [])

-- The last event is the writing of a configuration made from `v` and `disk`.
abbrev HasWritten : System → BootcVmCommon → BootcDisk → Trace → Type 0
HasWritten sys v disk t =
    (id : Text) × (size : ℕ) × After sys Any
      (acted (write_file (cfg_path v) (sys.marshal_config (config_of sys v disk id size)))
        (done tt))
      t

module _ (sys : System) (v : BootcVmCommon) (disk : BootcDisk) where
  write_config-Ensures : Ensures Any (write_config sys v disk) (λ _. HasWritten sys v disk)
  unfolding write_config
  write_config-Ensures = Ensures-bind _ _ _ (Ensures-any Any _) λ size.
      Ensures-bind _ _ _ (Ensures-any _ _) λ id.
        Ensures-context _ _ _
          (Ensures-mono _ (λ _ t (w, e, _). (id, size, (w, e, tt))) (Ensures-act sys _ _))

  -- What `LoadConfigFile` returns of a configuration `c` that was written last.
  abbrev Loads : VmConfig → Trace → Type 0
  Loads c t =
      (w : VmConfig) × ((load_config_file sys v t).0 ≡ ok w)
      × (w.id ≡ c.id)
      × (w.ssh_port ≡ c.ssh_port)
      × (w.ssh_identity ≡ c.ssh_identity)
      × (w.repo_tag ≡ c.repo_tag)

  Loads-back :
      (c : VmConfig) (t : Trace) (made_at k : ℕ)
      → IsFaithful sys
      → c.created ≡ sys.format_time made_at
      → sys.parse_float c.disk_size ≡ done k
      → Loads c (acted (write_file (cfg_path v) (sys.marshal_config c)) (done tt) ∷ t)
  unfolding load_config_file context read answer time_now pure ◌>>=◌
  Loads-back c t made_at k faithful e_time e_size =
      let text = sys.marshal_config c in
      let u =
        answered (read_file (cfg_path v)) (done text)
        ∷ acted (write_file (cfg_path v) text) (done tt)
        ∷ t in
      (
        record c {
          created = sys.human_duration_between made_at (sys.clock u) ++ lit " ago";
          disk_size = sys.human_size_with_precision k 3;
        },
        rw
            (
              faithful.file_back (cfg_path v) text t,
              faithful.config_back c,
              e_time,
              faithful.time_back made_at,
              e_size,
            )
            refl,
        refl,
        refl,
        refl,
        refl,
      )

  written_back :
      (t : Trace)
      → IsFaithful sys
      → HasWritten sys v disk t
      → (w : VmConfig) × ((load_config_file sys v t).0 ≡ ok w)
        × (w.ssh_port ≡ v.ssh_port)
        × (w.ssh_identity ≡ v.ssh_identity)
        × (w.repo_tag ≡ disk.repo_tag)
  unfolding config_of
  written_back t faithful (id, size, (before, e, _)) =
      let (k, e_size) = faithful.size_back size in
      let (w, loaded, _, port, identity, tag) =
        Loads-back (config_of sys v disk id size) before disk.created_at k faithful refl e_size in
      (w, rw e loaded, port, identity, tag)

-- For every system in which files, JSON, times and sizes come back as they were written, every VM, disk
-- and history: if `WriteConfig` succeeds, `LoadConfigFile` right after it succeeds and gives the SSH
-- port and the SSH key of the VM and the tag of the image of the disk.
pub load_config_file-write_config :
    (sys : System) (v : BootcVmCommon) (disk : BootcDisk) (t : Trace)
    → IsFaithful sys
    → (write_config sys v disk t).0 ≡ ok tt
    → (w : VmConfig) × ((load_config_file sys v (write_config sys v disk t).1).0 ≡ ok w)
      × (w.ssh_port ≡ v.ssh_port)
      × (w.ssh_identity ≡ v.ssh_identity)
      × (w.repo_tag ≡ disk.repo_tag)
load_config_file-write_config sys v disk t faithful e =
    written_back sys v disk _ faithful ((write_config-Ensures sys v disk).at t tt tt e)
