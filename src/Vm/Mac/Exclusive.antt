-- ===== src/Vm/Mac/Exclusive.antt =====
-- pkg/vm/vm_darwin.go: `NewVM` with an exclusive lock, and what is then read from the pid file.
use podman_bootc.Base.{
  ◌≡◌, refl, ap, ◌∷◌, [], Text, Option, none, some, Member, here, there, is_empty,
}
use podman_bootc.Base.Int.{ℤ}
use podman_bootc.Config.{run_pid_file}
use podman_bootc.Go.Errors.{Error}
use podman_bootc.Go.Path.{join}
use podman_bootc.User.{User}
use podman_bootc.Utils.Files.{parse_pid, read_pid_file}
use podman_bootc.Utils.Locks.{exclusive}
use podman_bootc.Vm.{NewVmParameters}
use podman_bootc.Vm.Exclusive.{lock_file, path_of, lock_vm-Ensures}
use podman_bootc.Vm.Mac.{BootcVmMac, new_vm}
use podman_bootc.Vm.Mac.Locking.{lock_path}
use podman_bootc.World.Answers.{Ensures-read}
use podman_bootc.World.Calls.{System, Event, Trace, done, answered, read_file}
use podman_bootc.World.Ensures.{
  Ensures, Any, Holds, Ensures-any, Ensures-bind, Ensures-fail, Ensures-given, Ensures-if,
  Ensures-pure, Ensures-Holds, Ensures-weaken,
}
use podman_bootc.World.Events.{Does-or_crash}
use podman_bootc.World.Exec.{fail, pure, if_nil}

-- The pid file of the VM whose directory this is.
abbrev pub run_pid : Text → Text
run_pid dir = join (dir ∷ run_pid_file ∷ [])

-- The process id was read from the file.
pub record IsReadFrom (path : Text) (pid : ℤ) (t : Trace) : Type 0 where
  pub content : Text
  pub is_read : Member (answered (read_file path) (done content)) t
  pub is_parsed : parse_pid content ≡ some pid

pub IsReadFrom-later :
    {path : Text} {pid : ℤ} (e : Event) {t : Trace}
    → IsReadFrom path pid t
    → IsReadFrom path pid (e ∷ t)
IsReadFrom-later e h = record {
  content = h.content;
  is_read = there h.is_read;
  is_parsed = h.is_parsed;
}

-- The VM is locked exclusively, by the lock file of its directory, which its pid file is in.
pub record IsLocked (sys : System) (u : User) (v : BootcVmMac) (t : Trace) : Type 0 where
  pub its_file : lock_path v ≡ lock_file sys u v.cache_dir
  pub is_held : Holds (lock_path v) t
  pub its_pid_file : v.pid_file ≡ run_pid v.cache_dir

just_read :
    (path content : Text) (pid : ℤ) (t w : Trace)
    → t ≡ answered (read_file path) (done content) ∷ w
    → parse_pid content ≡ some pid
    → IsReadFrom path pid t
just_read path content pid t w e p = record {
  content = content;
  is_read = rw e here;
  is_parsed = p;
}

module _ (sys : System) where
  -- `ReadPidFile` returns what it read.
  pub read_pid_file-Ensures : (path : Text) → Ensures Any (read_pid_file sys path) (IsReadFrom path)
  unfolding read_pid_file if_nil
  read_pid_file-Ensures path =
      Ensures-bind _ (λ _. Any) _ (Ensures-any Any _)
        λ _.
          Ensures-bind _ _ _ (Ensures-read sys Any (read_file path))
            λ content. parsed content _ (parse_pid content) refl
    where
      parsed :
          (content : Text) (x : Error) (o : Option ℤ)
          → parse_pid content ≡ o
          → Ensures
              (λ t. (w : Trace) × (t ≡ answered (read_file path) (done content) ∷ w) × Any w)
              (if_nil o (fail x) pure)
              (IsReadFrom path)
      parsed content x none e = Ensures-fail _ _ _
      parsed content x (some pid) e =
          Ensures-pure _ _ pid (λ t (w, same, _). just_read path content pid t w same e)

  -- `NewVM` with an exclusive lock returns a VM that is locked exclusively.
  pub new_vm-Ensures :
      (params : NewVmParameters)
      → params.locking ≡ exclusive
      → Ensures Any (new_vm sys params) (IsLocked sys params.user)
  unfolding new_vm
  new_vm-Ensures params e = Ensures-if _ _ (is_empty params.image_id) (Ensures-fail _ _ _) (
      Ensures-bind _ (λ _. Any) _ (Ensures-any Any _)
        λ (id, dir). Ensures-bind _ _ _ (lock_vm-Ensures sys params dir e) λ lock.
          Ensures-given _ λ same_lock.
            Ensures-weaken (λ t h. rw same_lock h)
              (Ensures-bind _ (λ _. Holds lock.path) _ (Ensures-Holds lock.path (Does-or_crash _))
                λ name. Ensures-pure _ _ _ (λ t h. record {
                  its_file = ap path_of same_lock;
                  is_held = h;
                  its_pid_file = refl;
                })))
