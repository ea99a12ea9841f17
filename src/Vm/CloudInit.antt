-- ===== src/Vm/CloudInit.antt =====
-- pkg/vm/cloudinit.go: the ISO image with the cloud-init data.
use podman_bootc.Base.{Text, lit, [], ◌∷◌, is_empty, if◌then◌else◌}
use podman_bootc.Config.{ci_data_iso}
use podman_bootc.Go.Errors.{new_error}
use podman_bootc.Go.Path.{join}
use podman_bootc.Vm.{BootcVmCommon}
use podman_bootc.World.Calls.{System, run_command}
use podman_bootc.World.Exec.{M, pure, fail, context, ◌>>◌, act}

module _ (sys : System) where
  -- `(b *BootcVMCommon) createCiDataIso(inDir)`.
  unfoldable pub create_ci_data_iso : BootcVmCommon → Text → M (Unit {0})
  create_ci_data_iso b in_dir = act sys (
      run_command (lit "xorrisofs") (
        lit "-output"
        ∷ join (b.cache_dir ∷ ci_data_iso ∷ [])
        ∷ lit "-volid"
        ∷ lit "cidata"
        ∷ lit "-joliet"
        ∷ lit "-rock"
        ∷ lit "-partition_cyl_align"
        ∷ lit "on"
        ∷ in_dir
        ∷ []))

  -- `(b *BootcVMCommon) ParseCloudInit()`.
  unfoldable pub parse_cloud_init : BootcVmCommon → M BootcVmCommon
  parse_cloud_init b =
      if b.has_cloud_init
      then if is_empty b.cloud_init_dir
        then fail (new_error (lit "empty cloud init directory"))
        else (do
          context (lit "creating cloud-init iso") (create_ci_data_iso b b.cloud_init_dir)
          pure (record b { cloud_init_args = join (b.cache_dir ∷ ci_data_iso ∷ []) }))
      else pure b
