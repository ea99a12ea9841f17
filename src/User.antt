-- ===== src/User.antt =====
-- pkg/user/user.go: the user who runs the command, and the directories that belong to them.
use podman_bootc.Base.{Text, lit, [], ◌∷◌, if◌then◌else◌, Option, none, some}
use podman_bootc.Config.{project_name, cache_dir_name}
use podman_bootc.Go.Path.{join}
use podman_bootc.World.Calls.{System, UserData, mkdir_all, remove_all}
use podman_bootc.World.Exec.{M, pure, context, ◌>>=◌, ◌>>◌, current_user, act}

-- `User`, with what the code reads of its `OSUser`.
pub record User : Type 0 where
  pub os_user : UserData
  pub open os_user use *

-- `(u *User) SSHDir()`.
unfoldable pub ssh_dir : User → Text
ssh_dir u = join (u.home_dir ∷ lit ".ssh" ∷ [])

-- `(u *User) CacheDir()`.
unfoldable pub cache_dir : User → Text
cache_dir u = join (u.home_dir ∷ cache_dir_name ∷ project_name ∷ [])

-- `(u *User) DefaultIdentity()`.
unfoldable pub default_identity : User → Text
unfolding ssh_dir
default_identity u = join (ssh_dir u ∷ lit "id_rsa" ∷ [])

module _ (sys : System) where
  -- `NewUser()`: the lookup of the user, rootless or not, is the system's.
  unfoldable pub new_user : M User
  new_user = do
    u ← context (lit "failed to get user") (current_user sys)
    pure (record { os_user = u })

  -- `(u *User) RunDir()`.
  abbrev tmp_dir : Option Text → Text
  tmp_dir none = lit "/tmp"
  tmp_dir (some dir) = dir

  unfoldable pub run_dir : User → Text
  run_dir u =
      if sys.is_darwin
      then join (tmp_dir (sys.lookup_env (lit "TMPDIR")) ∷ project_name ∷ lit "run" ∷ [])
      else join (sys.xdg_runtime_dir ∷ project_name ∷ lit "run" ∷ [])

  -- `(u *User) InitOSCDirs()`.
  unfoldable pub init_osc_dirs : User → M (Unit {0})
  init_osc_dirs u = do act sys (mkdir_all (cache_dir u)); act sys (mkdir_all (run_dir u))

  -- `(u *User) RemoveOSCDirs()`.
  unfoldable pub remove_osc_dirs : User → M (Unit {0})
  remove_osc_dirs u = do act sys (remove_all (cache_dir u)); act sys (remove_all (run_dir u))
