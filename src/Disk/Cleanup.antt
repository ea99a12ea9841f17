-- ===== src/Disk/Cleanup.antt =====
-- pkg/bootc/bootc_disk.go: the temporary file of `bootcInstallImageToDisk` when it fails.
use podman_bootc.Base.{◌≡◌, refl, ◌⊎◌, inl, inr, Text, lit, ◌∷◌, Member, here, there}
use podman_bootc.Disk.{BootcDisk, DiskImageConfig}
use podman_bootc.Disk.Install.{
  requested_size, run_install_container, fill_disk, bootc_install_image_to_disk,
}
use podman_bootc.Disk.Size.{disk_size}
use podman_bootc.Go.Errors.{Result, ok, err, panic}
use podman_bootc.World.Answers.{given_done}
use podman_bootc.World.Calls.{
  System, Action, Answer, done, failed, Event, acted, answered, create_temp, remove, run_command,
  truncate_file, Trace,
}
use podman_bootc.World.Events.{Extends, same, more, Extends-trans, Does, does_rules}
use podman_bootc.World.Exec.{
  M, pure, ignore, attempt, on_failure, after_failure, act, read, given, caught, continue, ◌>>=◌,
  ◌>>◌,
}

abbrev IsNoRunAction : Action → Type 0
IsNoRunAction (run_command p args) = ⊥
IsNoRunAction _ = Unit

-- An event that is not the run of a command.
abbrev pub IsNoRun : Event → Type 0
IsNoRun (acted c r) = IsNoRunAction c
IsNoRun _ = Unit

-- The last thing that was done is to remove a file that was made before, as a temporary file.
pub record IsRemoved (dir : Text) (t : Trace) : Type 0 where
  pub name : Text
  pub answer' : Answer (Unit {0})
  pub before : Trace
  pub ends : t ≡ acted (remove name) answer' ∷ before
  pub made : Member (answered (create_temp dir (lit "podman-bootc-tempdisk")) (done name)) before

-- How the installation may end: with success, before any command was run, or with the file removed.
abbrev pub IsClean : Text → Trace → Result BootcDisk × Trace → Type 0
IsClean dir t (ok q, u) = Unit
IsClean dir t (r, u) = Extends IsNoRun t u ⊎ IsRemoved dir u

module _ {A B : Type 0} where
  -- A chain goes on with the value of its first part, or ends with it.
  by_first :
      (P : Result B × Trace → Type 0) (m : M A) (f : A → M B) (t : Trace)
      → ((a : A) → (m t).0 ≡ ok a → P (f a (m t).1))
      → ((r : Result B) → P (r, (m t).1))
      → P ((m >>= f) t)
  unfolding ◌>>=◌
  by_first P m f t on_ok on_end = by_result (m t).0 (m t).1 on_ok on_end
    where
      by_result :
          (r : Result A) (u : Trace)
          → ((a : A) → r ≡ ok a → P (f a u))
          → ((s : Result B) → P (s, u))
          → P (continue f r u)
      by_result (ok a) u h k = h a refl
      by_result (err e) u h k = k (err e)
      by_result panic u h k = k panic

ends_early :
    (dir : Text) (t u : Trace) (r : Result BootcDisk) → Extends IsNoRun t u → IsClean dir t (r, u)
ends_early dir t u (ok q) h = tt
ends_early dir t u (err e) h = inl h
ends_early dir t u panic h = inl h

Member-Extends :
    {e : Event} {P : Event → Type 0} {t u : Trace} → Member e t → Extends P t u → Member e u
Member-Extends m same = m
Member-Extends m (more e p k) = there (Member-Extends m k)

module _ (sys : System) where
  -- The removal that the failure of `fill_disk` starts.
  remove_step :
      (name : Text) (t : Trace)
      → (ignore (act sys (remove name)) t).1 ≡ acted (remove name) (sys.act t (remove name)) ∷ t
  unfolding ignore attempt act pure ◌>>=◌
  remove_step name t = by_answer (sys.act t (remove name))
    where
      by_answer :
          (r : Answer (Unit {0}))
          → (continue (λ _. pure tt) (caught (given r)) (acted (remove name) r ∷ t)).1
            ≡ acted (remove name) r ∷ t
      by_answer (done x) = refl
      by_answer (failed e) = refl

  guarded_end :
      (dir name' : Text) (q : BootcDisk) (t : Trace) (r : Result (Unit {0})) (u : Trace)
      → Member (answered (create_temp dir (lit "podman-bootc-tempdisk")) (done name')) u
      → IsClean dir t (
          continue
            (λ _. pure q)
            (after_failure (ignore (act sys (remove name'))) r u).0
            (after_failure (ignore (act sys (remove name'))) r u).1)
  unfolding pure
  guarded_end dir name' q t (ok x) u m = tt
  guarded_end dir name' q t (err e) u m =
      inr (record { name = name'; answer' = _; before = u; ends = remove_step name' u; made = m })
  guarded_end dir name' q t panic u m =
      inr (record { name = name'; answer' = _; before = u; ends = remove_step name' u; made = m })

  fill_disk-anything :
      (p : BootcDisk) (config : DiskImageConfig) (name : Text)
      → Does (λ _. Unit {0}) (fill_disk sys p config name)
  unfolding fill_disk run_install_container
  fill_disk-anything p config name = search does_rules depth 20

  requested_size-IsNoRun : (config : DiskImageConfig) → Does IsNoRun (requested_size sys config)
  unfolding requested_size
  requested_size-IsNoRun config = search does_rules depth 10

  filled :
      (p : BootcDisk) (config : DiskImageConfig) (name : Text) (q : BootcDisk) (t u : Trace)
      → Member (answered (create_temp p.directory (lit "podman-bootc-tempdisk")) (done name)) u
      → IsClean p.directory t
          ((on_failure (ignore (act sys (remove name))) (fill_disk sys p config name) >> pure q) u)
  unfolding on_failure ◌>>=◌
  filled p config name q t u m =
      guarded_end p.directory name q t (fill_disk sys p config name u).0
        (fill_disk sys p config name u).1
        (Member-Extends m ((fill_disk-anything p config name).on u))

  created :
      (dir name : Text) (t : Trace)
      → (read sys (create_temp dir (lit "podman-bootc-tempdisk")) t).0 ≡ ok name
      → Member
          (answered (create_temp dir (lit "podman-bootc-tempdisk")) (done name))
          (read sys (create_temp dir (lit "podman-bootc-tempdisk")) t).1
  unfolding read
  created dir name t e = rw (given_done _ name e) here

-- A part that runs no command, before the rest.
quiet_first :
    {A : Type 0} (dir : Text) (t : Trace) (m : M A) (f : A → M BootcDisk) (u : Trace)
    → Extends IsNoRun t u
    → Does IsNoRun m
    → ((a : A) → (m u).0 ≡ ok a → Extends IsNoRun u (m u).1 → IsClean dir t (f a (m u).1))
    → IsClean dir t ((m >>= f) u)
quiet_first dir t m f u before h k =
    by_first (IsClean dir t) m f u (λ a e. k a e (h.on u))
      (λ r. ends_early dir t (m u).1 r (Extends-trans before (h.on u)))

-- For every system, disk, configuration and history: the installation of a disk image succeeds, or it
-- ends before any command was run, or the last thing it does is to remove a temporary file that it
-- made in the directory of the disk.
pub bootc_install_image_to_disk-IsClean :
    (sys : System) (p : BootcDisk) (config : DiskImageConfig) (t : Trace)
    → IsClean p.directory t (bootc_install_image_to_disk sys p config t)
unfolding bootc_install_image_to_disk
bootc_install_image_to_disk-IsClean sys p config t =
    let dir = p.directory in
    quiet_first dir t _ _ t same (search does_rules) λ name e x1.
      quiet_first dir t _ _ _ x1 (search does_rules) λ image _ x2.
        let y2 = Extends-trans x1 x2 in
        quiet_first dir t _ _ _ y2 (requested_size-IsNoRun sys config) λ requested _ x3.
          let y3 = Extends-trans y2 x3 in
          quiet_first dir t (act sys (truncate_file name (disk_size image.size requested))) _ _ y3
            (search does_rules)
            λ _ _ x4. filled sys p config name _ t _ (
              Member-Extends (created sys p.directory name t e)
                (Extends-trans x2 (Extends-trans x3 x4)))
