-- ===== src/Disk/Install.antt =====
-- pkg/bootc/bootc_disk.go: `Install`, which keeps a disk image that was made from the same container
-- image and makes one otherwise.
use podman_bootc.Base.{
  not, Text, lit, [], ◌∷◌, ◌++◌, Option, none, some, is_empty, text_eq, if◌then◌else◌,
}
use podman_bootc.Base.Int.{ℤ}
use podman_bootc.Config.{disk_image}
use podman_bootc.Disk.{BootcDisk, DiskImageConfig, pull_image}
use podman_bootc.Disk.Size.{disk_size}
use podman_bootc.Disk.Command.{bootc_install_args, podman_args}
use podman_bootc.Go.Errors.{new_error, is_not_exist}
use podman_bootc.Go.Path.{join}
use podman_bootc.User.{cache_dir, run_dir}
use podman_bootc.Utils.Locks.{exclusive, new_cache_lock, try_lock_in, unlock}
use podman_bootc.World.Calls.{
  System, Answer, remove, mkdir_all, rename, open_file, truncate_file, set_xattr, run_command,
  get_xattr, create_temp,
}
use podman_bootc.World.Exec.{
  M, pure, fail, branch, answer, or_crash, context, deferring, on_failure, ignore, ◌>>=◌, ◌>>◌, act,
  read, time_now,
}

-- `imageMetaXattr`.
unfoldable pub image_meta_xattr : Text
image_meta_xattr = lit "user.bootc.meta"

-- The path of the disk image in the directory of a disk.
abbrev pub disk_path : BootcDisk → Text
disk_path p = join (p.directory ∷ disk_image ∷ [])

module _ (sys : System) where
  -- `units.FromHumanSize(diskConfig.DiskSize)`, where a size is asked for.
  unfoldable pub requested_size : DiskImageConfig → M (Option ℤ)
  requested_size config =
      if is_empty config.disk_size
      then pure none
      else (do size ← answer (sys.from_human_size config.disk_size); pure (some size))

  -- `(p *BootcDisk) runInstallContainer(quiet, config)`, for the file `name`.
  unfoldable pub run_install_container : BootcDisk → DiskImageConfig → Text → M (Unit {0})
  run_install_container p config name = context (lit "failed to invoke install") (
      act sys (
        run_command (lit "podman") (
          podman_args sys p.directory p.image_name_or_id
            (bootc_install_args config.filesystem config.root_size_max name))))

  -- From the run of the installer to the rename: what the deferred removal of the file guards.
  unfoldable pub fill_disk : BootcDisk → DiskImageConfig → Text → M (Unit {0})
  fill_disk p config name = do
    context (lit "failed to create disk image") (run_install_container p config name)
    context (lit "failed to set xattr")
        (act sys (set_xattr name image_meta_xattr (sys.marshal_meta p.image_id)))
    context (lit "failed to rename to " ++ disk_path p) (act sys (rename name (disk_path p)))

  -- `(p *BootcDisk) bootcInstallImageToDisk(quiet, diskConfig)`.
  unfoldable pub bootc_install_image_to_disk : BootcDisk → DiskImageConfig → M BootcDisk
  bootc_install_image_to_disk p config = do
    name ← read sys (create_temp p.directory (lit "podman-bootc-tempdisk"))
    image ← or_crash p.image_data
    requested ← requested_size config
    act sys (truncate_file name (disk_size image.size requested))
    on_failure (ignore (act sys (remove name))) (fill_disk p config name)
    pure (record p { file = some name })

  -- What `getOrInstallImageToDisk` does with the extended attribute of a disk that it found.
  unfoldable pub check_digest : BootcDisk → DiskImageConfig → Answer Text → M BootcDisk
  check_digest p config meta =
      branch (answer meta)
        (λ digest.
          if text_eq digest p.image_id then pure p else bootc_install_image_to_disk p config)
        (λ _. bootc_install_image_to_disk p config)

  -- `(p *BootcDisk) getOrInstallImageToDisk(quiet, diskConfig)`.
  unfoldable pub get_or_install_image_to_disk : BootcDisk → DiskImageConfig → M BootcDisk
  get_or_install_image_to_disk p config =
      branch (act sys (open_file (disk_path p)))
        (λ _.
          branch (read sys (get_xattr (disk_path p) image_meta_xattr))
            (λ meta. check_digest p config (sys.unmarshal_meta meta))
            (λ _. do ignore (act sys (remove (disk_path p))); bootc_install_image_to_disk p config))
        (λ e. if is_not_exist e then bootc_install_image_to_disk p config else fail e)

  -- `(p *BootcDisk) Install(quiet, config)`, on a disk whose directory is `directory` from then on.
  -- `quiet` is not read.
  unfoldable pub install : BootcDisk → DiskImageConfig → M BootcDisk
  install p config = do
    created ← time_now sys
    pulled ← pull_image sys (record p { created_at = created })
    let directory = join (cache_dir pulled.user ∷ pulled.image_id ∷ [])
    let lock = new_cache_lock (run_dir sys pulled.user) directory
    locked ← context (lit "error locking the VM cache path") (try_lock_in sys lock exclusive)
    if not locked
        then fail (new_error (lit "unable to lock the VM cache path"))
        else deferring (ignore (unlock sys lock)) (do
          context (lit "error while making bootc disk directory") (act sys (mkdir_all directory))
          get_or_install_image_to_disk (record pulled { directory = directory }) config)
