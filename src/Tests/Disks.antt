-- ===== src/Tests/Disks.antt =====
-- The properties of disk images, on concrete disks.
use podman_bootc.Base.{ℕ, ◌≡◌, refl, ◌≤◌, ◌<◌, ◌^◌, lit, [], none, some, text_eq, arith}
use podman_bootc.Base.Int.{pos, add64, sub64, mul64, rem64}
use podman_bootc.Config.{disk_image}
use podman_bootc.Disk.{BootcDisk, DiskImageConfig}
use podman_bootc.Disk.Bounds.{IsEnough, disk_size-least, disk_size-overflow}
use podman_bootc.Disk.Command.{bootc_install_args, podman_options, podman_args}
use podman_bootc.Disk.Install.{
  image_meta_xattr, requested_size, run_install_container, fill_disk, bootc_install_image_to_disk,
  check_digest, get_or_install_image_to_disk,
}
use podman_bootc.Disk.Published.{Installed, get_or_install_image_to_disk-Installed}
use podman_bootc.Disk.Size.{disk_size, disk_size_minimum, align}
use podman_bootc.Go.Errors.{ok}
use podman_bootc.Go.Path.{join, base}
use podman_bootc.Tests.Sim.{calm, id_a, user_a}
use podman_bootc.Base.{first}
use podman_bootc.Disk.Cleanup.{IsClean, bootc_install_image_to_disk-IsClean}
use podman_bootc.Go.Errors.{new_error}
use podman_bootc.World.Calls.{
  System, Action, run_command, remove, Answer, done, failed, acted, Trace,
}
use podman_bootc.World.Exec.{
  pure, fail, answer, or_crash, attempt, context, on_error, on_failure, branch, ◌>>=◌, ignore, act,
  read,
}

abbrev pub disk_a : BootcDisk
disk_a = record {
  image_name_or_id = lit "quay.io/a";
  user = user_a;
  image_id = id_a;
  image_data = some (record { id = id_a; size = pos 1000; repo_tags = [] });
  repo_tag = [];
  created_at = 0;
  directory = lit "/d";
  file = none;
  install_container_id = [];
}

abbrev config_plain : DiskImageConfig
config_plain = record { filesystem = []; root_size_max = []; disk_size = [] }

-- An image of 1000 bytes gets the minimum; one of 7 GB twice its size, in whole blocks.
small_image : disk_size (pos 1000) none ≡ pos 10737418240
unfolding disk_size align add64 sub64 mul64 rem64
small_image = refl

large_image : disk_size (pos 7000000001) none ≡ pos 14000001024
unfolding disk_size align add64 sub64 mul64 rem64
large_image = refl

-- The disk that is found has another digest: it is made again.
reinstalled :
    (get_or_install_image_to_disk calm disk_a config_plain []).0
    ≡ ok (record disk_a { file = some (lit "text") })
unfolding get_or_install_image_to_disk check_digest bootc_install_image_to_disk requested_size
    fill_disk run_install_container image_meta_xattr bootc_install_args podman_options podman_args
    disk_image join base text_eq lit disk_size align add64 sub64 mul64 rem64 pure fail answer
    or_crash attempt context on_error on_failure branch ◌>>=◌ ignore act read
reinstalled = refl

get_or_install_image_to_disk-Installed_example :
    Installed calm disk_a config_plain
      (record disk_a { file = some (lit "text") })
      (get_or_install_image_to_disk calm disk_a config_plain []).1
get_or_install_image_to_disk-Installed_example =
    get_or_install_image_to_disk-Installed calm disk_a config_plain []
      (record disk_a { file = some (lit "text") }) reinstalled

disk_size-least_example :
    (n : ℕ) × (disk_size (pos 7000000001) (some (pos 20000000000)) ≡ pos n)
    × IsEnough 7000000001 (some (pos 20000000000)) n
    × ((k : ℕ) → IsEnough 7000000001 (some (pos 20000000000)) k → n ≤ k)
disk_size-least_example =
    disk_size-least 7000000001 (some (pos 20000000000)) (omega arith) (omega arith)

disk_size-overflow_example :
    (disk_size (pos (2 ^ 62)) none ≡ pos disk_size_minimum) × (disk_size_minimum < 2 ^ 62)
disk_size-overflow_example = disk_size-overflow (2 ^ 62) (omega arith) (omega arith)

-- The installer fails: the temporary file is removed.
abbrev act_broken : Trace → Action → Answer (Unit {0})
act_broken t (run_command p args) = failed (new_error (lit "exit status 1"))
act_broken t _ = done tt

abbrev broken : System
broken = record calm { act = act_broken }

removed :
    first (bootc_install_image_to_disk broken disk_a config_plain []).1
    ≡ some (acted (remove (lit "text")) (done tt))
unfolding bootc_install_image_to_disk requested_size fill_disk run_install_container
    bootc_install_args podman_options podman_args disk_image join base lit disk_size align add64
    sub64 mul64 rem64 pure or_crash attempt context on_failure ◌>>=◌ ignore act read
removed = refl

bootc_install_image_to_disk-IsClean_example :
    IsClean (lit "/d") [] (bootc_install_image_to_disk broken disk_a config_plain [])
bootc_install_image_to_disk-IsClean_example =
    bootc_install_image_to_disk-IsClean broken disk_a config_plain []
