-- ===== src/Disk.antt =====
-- pkg/bootc/bootc_disk.go: the disk image of a VM, made from a container image by
-- `bootc install to-disk` and kept in the cache directory of the image.
pub mod Size
pub mod Bounds
pub mod Command
pub mod Install
pub mod Neutral
pub mod Published
pub mod Renames
pub mod Cleanup
pub mod Calm
use podman_bootc.Base.{ℕ, Text, lit, [], ◌∷◌, List, Option, none, some, is_empty, if◌then◌else◌}
use podman_bootc.Config.{disk_image}
use podman_bootc.Go.Path.{join}
use podman_bootc.User.{User}
use podman_bootc.World.Calls.{
  System, ImageData, stat_size, pull_image as pull_call, remove_container,
}
use podman_bootc.World.Exec.{M, pure, context, ◌>>=◌, ◌>>◌, act, measure, inspect_image}

-- `DiskImageConfig`.
pub record DiskImageConfig : Type 0 where
  pub filesystem : Text
  pub root_size_max : Text
  pub disk_size : Text

-- `BootcDisk`. Its context is the podman connection, of which there is one; `file` is the name of the
-- temporary file, once made.
pub record BootcDisk : Type 0 where
  pub image_name_or_id : Text
  pub user : User
  pub image_id : Text
  pub image_data : Option ImageData
  pub repo_tag : Text
  pub created_at : ℕ
  pub directory : Text
  pub file : Option Text
  pub install_container_id : Text

abbrev fresh_disk : Text → User → BootcDisk
fresh_disk name user = record {
  image_name_or_id = name;
  user = user;
  image_id = [];
  image_data = none;
  repo_tag = [];
  created_at = 0;
  directory = [];
  file = none;
  install_container_id = [];
}

-- `NewBootcDisk`: the first call makes the one instance, and later ones return it, whatever their
-- arguments. The argument is the instance so far.
unfoldable pub new_bootc_disk : Option BootcDisk → Text → User → BootcDisk
new_bootc_disk none name user = fresh_disk name user
new_bootc_disk (some instance') name user = instance'

abbrev first_tag : Text → List Text → Text
first_tag old [] = old
first_tag old (tag ∷ tags) = tag

module _ (sys : System) where
  -- `utils.PullAndInspect(ctx, imageNameOrId)`.
  unfoldable pub pull_and_inspect : Text → M ImageData
  pull_and_inspect name = do
    context (lit "failed to pull image") (act sys (pull_call name))
    context (lit "failed to inspect image") (inspect_image sys name)

  -- `(p *BootcDisk) pullImage()`.
  unfoldable pub pull_image : BootcDisk → M BootcDisk
  pull_image p = do
    image ← pull_and_inspect p.image_name_or_id
    pure (record p {
      image_data = some image;
      image_id = image.id;
      repo_tag = first_tag p.repo_tag image.repo_tags;
    })

  -- `(p *BootcDisk) GetSize()`.
  unfoldable pub get_size : BootcDisk → M ℕ
  get_size p = measure sys (stat_size (join (p.directory ∷ disk_image ∷ [])))

  -- `(p *BootcDisk) Cleanup()`.
  unfoldable pub cleanup : BootcDisk → M (Unit {0})
  cleanup p =
      if is_empty p.install_container_id
      then pure tt
      else context (lit "failed to remove bootc install container")
          (act sys (remove_container p.install_container_id))
