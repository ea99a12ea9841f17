-- ===== src/Disk/Neutral.antt =====
-- pkg/bootc/bootc_disk.go: the lock that `Install` takes, and the events between.
use podman_bootc.Base.{Text}
use podman_bootc.Disk.{BootcDisk, DiskImageConfig, pull_image, pull_and_inspect}
use podman_bootc.Disk.Install.{
  install, get_or_install_image_to_disk, check_digest, bootc_install_image_to_disk, fill_disk,
  run_install_container, requested_size,
}
use podman_bootc.Utils.Locks.{try_lock_in, unlock}
use podman_bootc.World.Brackets.{Balances, Balances-Does, Balances-bind, GivesBack-unlock}
use podman_bootc.World.Calls.{System, Answer, try_lock}
use podman_bootc.World.Events.{Does, does_rules}
use podman_bootc.World.Locks.{IsNeutral}
use podman_bootc.World.Settles.{Balances-try}

module _ (sys : System) where
  fill_disk-IsNeutral :
      (p : BootcDisk) (config : DiskImageConfig) (name : Text)
      → Does IsNeutral (fill_disk sys p config name)
  unfolding fill_disk run_install_container
  fill_disk-IsNeutral p config name = search does_rules depth 20

  bootc_install_image_to_disk-IsNeutral :
      (p : BootcDisk) (config : DiskImageConfig)
      → Does IsNeutral (bootc_install_image_to_disk sys p config)
  unfolding bootc_install_image_to_disk requested_size
  bootc_install_image_to_disk-IsNeutral p config = search (does_rules, fill_disk-IsNeutral) depth 20

  check_digest-IsNeutral :
      (p : BootcDisk) (config : DiskImageConfig) (meta : Answer Text)
      → Does IsNeutral (check_digest sys p config meta)
  unfolding check_digest
  check_digest-IsNeutral p config meta =
      search (does_rules, bootc_install_image_to_disk-IsNeutral) depth 20

  get_or_install_image_to_disk-IsNeutral :
      (p : BootcDisk) (config : DiskImageConfig)
      → Does IsNeutral (get_or_install_image_to_disk sys p config)
  unfolding get_or_install_image_to_disk
  get_or_install_image_to_disk-IsNeutral p config =
      search (does_rules, check_digest-IsNeutral, bootc_install_image_to_disk-IsNeutral) depth 20

  pull_image-IsNeutral : (p : BootcDisk) → Does IsNeutral (pull_image sys p)
  unfolding pull_image pull_and_inspect
  pull_image-IsNeutral p = search does_rules depth 20

  pub install-Balances :
      (p : BootcDisk) (config : DiskImageConfig) → Balances (install sys p config)
  unfolding install try_lock_in unlock
  install-Balances p config = Balances-bind (Balances-Does (search does_rules)) λ created.
      Balances-bind (Balances-Does (pull_image-IsNeutral _)) λ pulled.
        Balances-try sys (try_lock _) _ _ (GivesBack-unlock sys _)
          (search (does_rules, get_or_install_image_to_disk-IsNeutral) depth 20)
