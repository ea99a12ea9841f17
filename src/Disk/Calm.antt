-- ===== src/Disk/Calm.antt =====
-- pkg/bootc/bootc_disk.go: panics.
use podman_bootc.Base.{◌≡◌, refl, true, is_some, Text}
use podman_bootc.Utils.Calm.{try_lock_in-Calm}
use podman_bootc.Disk.{BootcDisk, DiskImageConfig, pull_image, pull_and_inspect}
use podman_bootc.Disk.Install.{
  requested_size, run_install_container, fill_disk, bootc_install_image_to_disk, check_digest,
  get_or_install_image_to_disk, install,
}
use podman_bootc.Utils.Locks.{unlock}
use podman_bootc.World.Returns.{Returns, Returns-bind, Returns-pure}
use podman_bootc.World.Calls.{System, Answer}
use podman_bootc.World.Calm.{
  Calm, Calm-bind, Calm-then, Calm-context, Calm-if, Calm-or_crash, Calm-pure, Calm-fail,
  Calm-deferring, Calm-ignore, Calm-act, Calm-branch, Calm-read, Calm-answer, calm_rules,
  Calm-time_now,
}

-- The data of the image are there, once it was pulled.
abbrev IsPulled : BootcDisk → Type 0
IsPulled p = is_some p.image_data ≡ true

module _ (sys : System) where
  pull_image-Calm : (p : BootcDisk) → Calm (pull_image sys p)
  unfolding pull_image pull_and_inspect
  pull_image-Calm p = search calm_rules depth 10

  pull_image-IsPulled : (p : BootcDisk) → Returns IsPulled (pull_image sys p)
  unfolding pull_image
  pull_image-IsPulled p = Returns-bind _ _ (λ image. Returns-pure _ _ refl)

  bootc_install-Calm :
      (p : BootcDisk) (config : DiskImageConfig)
      → IsPulled p
      → Calm (bootc_install_image_to_disk sys p config)
  unfolding bootc_install_image_to_disk requested_size fill_disk run_install_container
  bootc_install-Calm p config h =
      Calm-bind (Calm-read sys _)
        λ name. Calm-bind (Calm-or_crash p.image_data h) (λ image. search calm_rules depth 24)

  check_digest-Calm :
      (p : BootcDisk) (config : DiskImageConfig) (meta : Answer Text)
      → IsPulled p
      → Calm (check_digest sys p config meta)
  unfolding check_digest
  check_digest-Calm p config meta h =
      Calm-branch (Calm-answer meta)
        (λ digest. Calm-if _ (Calm-pure p) (bootc_install-Calm p config h))
        (λ e. bootc_install-Calm p config h)

  get_or_install-Calm :
      (p : BootcDisk) (config : DiskImageConfig)
      → IsPulled p
      → Calm (get_or_install_image_to_disk sys p config)
  unfolding get_or_install_image_to_disk
  get_or_install-Calm p config h =
      Calm-branch (Calm-act sys _)
        (λ _.
          Calm-branch (Calm-read sys _) (λ meta. check_digest-Calm p config _ h)
            (λ e. Calm-bind (Calm-ignore (Calm-act sys _)) (λ _. bootc_install-Calm p config h)))
        (λ e. Calm-if _ (bootc_install-Calm p config h) (Calm-fail e))

  -- `Install` does not panic.
  pub install-Calm : (p : BootcDisk) (config : DiskImageConfig) → Calm (install sys p config)
  unfolding install unlock
  install-Calm p config = Calm-bind (Calm-time_now sys) λ created.
      Calm-then _ (pull_image-Calm _) (pull_image-IsPulled _) λ pulled has.
        Calm-bind (Calm-context _ (try_lock_in-Calm sys _ _)) λ locked. Calm-if _ (Calm-fail _) (
          Calm-deferring (Calm-ignore (Calm-act sys _))
            (Calm-bind (Calm-context _ (Calm-act sys _)) (λ _. get_or_install-Calm _ config has)))
