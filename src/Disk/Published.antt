-- ===== src/Disk/Published.antt =====
-- pkg/bootc/bootc_disk.go: the history when `getOrInstallImageToDisk` has succeeded.
use podman_bootc.Base.{
  ◌≡◌, refl, ap, ◌∙◌, Text, lit, List, ◌∷◌, ◌⊎◌, inl, inr, Bool, true, false, text_eq, text_eq_iff,
  if◌then◌else◌,
}
use podman_bootc.Disk.{BootcDisk, DiskImageConfig}
use podman_bootc.Disk.Command.{podman_args, bootc_install_args}
use podman_bootc.Disk.Install.{
  image_meta_xattr, disk_path, run_install_container, fill_disk, bootc_install_image_to_disk,
  check_digest, get_or_install_image_to_disk,
}
use podman_bootc.Go.Errors.{ok, is_not_exist}
use podman_bootc.World.Answers.{
  After, Ensures-act, Ensures-read, Ensures-answer, Ensures-on_failure, Ensures-branch,
  Ensures-mono,
}
use podman_bootc.World.Calls.{
  System, done, acted, answered, Trace, rename, set_xattr, run_command, get_xattr,
}
use podman_bootc.World.Ensures.{
  Ensures, Any, Ensures-bind, Ensures-any, Ensures-if, Ensures-pure, Ensures-fail, Ensures-context,
  Ensures-weaken,
}
use podman_bootc.World.Exec.{act, pure}

-- The arguments of podman that install the image of `p` to a file in the directory of `p`.
abbrev pub installer_args : System → BootcDisk → DiskImageConfig → Text → List Text
installer_args sys p config name =
    podman_args sys p.directory p.image_name_or_id
      (bootc_install_args config.filesystem config.root_size_max name)

-- The history ends with the run of the installer for the file and the digest put on the file, both with
-- success.
pub record IsComplete (sys : System) (p : BootcDisk) (config : DiskImageConfig) (name : Text)
    (t : Trace) : Type 0 where
  pub before : Trace
  pub ends :
      t
      ≡ acted (set_xattr name image_meta_xattr (sys.marshal_meta p.image_id)) (done tt)
        ∷ acted (run_command (lit "podman") (installer_args sys p config name)) (done tt)
        ∷ before

-- The disk of `p` was found, with the digest of the image of `p`.
pub record IsKept (sys : System) (p q : BootcDisk) (t : Trace) : Type 0 where
  pub meta : Text
  pub before : Trace
  pub ends : t ≡ answered (get_xattr (disk_path p) image_meta_xattr) (done meta) ∷ before
  pub matches : sys.unmarshal_meta meta ≡ done p.image_id
  pub unchanged : q ≡ p

-- The disk of `p` was made, and given its name last of all.
pub record IsMade (sys : System) (p : BootcDisk) (config : DiskImageConfig) (t : Trace)
    : Type 0 where
  pub name : Text
  pub before : Trace
  pub ends : t ≡ acted (rename name (disk_path p)) (done tt) ∷ before
  pub complete : IsComplete sys p config name before

-- The history ends with a successful run of podman with these arguments.
abbrev pub HasRun : List Text → Trace → Type 0
HasRun args t = (w : Trace) × (t ≡ acted (run_command (lit "podman") args) (done tt) ∷ w)

module _ (sys : System) where
  pub run_install_container-Ensures :
      (p : BootcDisk) (config : DiskImageConfig) (name : Text)
      → Ensures Any
          (run_install_container sys p config name)
          (λ _. HasRun (installer_args sys p config name))
  unfolding run_install_container
  run_install_container-Ensures p config name =
      Ensures-context _ _ _
        (Ensures-mono _ (λ _ t (w, e, _). (w, e)) (Ensures-act sys Any (run_command _ _)))

  pub set_digest-Ensures :
      (p : BootcDisk) (config : DiskImageConfig) (name : Text)
      → Ensures
          (HasRun (installer_args sys p config name))
          (act sys (set_xattr name image_meta_xattr (sys.marshal_meta p.image_id)))
          (λ _. IsComplete sys p config name)
  set_digest-Ensures p config name =
      Ensures-mono _ (λ _ t (w, e, (w', e')). record { before = w'; ends = rw (e, e') refl })
        (Ensures-act sys (HasRun _) _)

  rename-Ensures :
      (p : BootcDisk) (config : DiskImageConfig) (name : Text)
      → Ensures
          (IsComplete sys p config name)
          (act sys (rename name (disk_path p)))
          (λ _. IsMade sys p config)
  rename-Ensures p config name' =
      Ensures-mono _ (λ _ t (w, e, c). record { name = name'; before = w; ends = e; complete = c })
        (Ensures-act sys _ _)

  fill_disk-Ensures :
      (p : BootcDisk) (config : DiskImageConfig) (name : Text)
      → Ensures Any (fill_disk sys p config name) (λ _. IsMade sys p config)
  unfolding fill_disk
  fill_disk-Ensures p config name =
      Ensures-bind _ _ _ (Ensures-context _ _ _ (run_install_container-Ensures p config name)) λ _.
        Ensures-bind _ _ _ (Ensures-context _ _ _ (set_digest-Ensures p config name))
          λ _. Ensures-context _ _ _ (rename-Ensures p config name)

  bootc_install-Ensures :
      (p : BootcDisk) (config : DiskImageConfig)
      → Ensures Any (bootc_install_image_to_disk sys p config) (λ _. IsMade sys p config)
  unfolding bootc_install_image_to_disk
  bootc_install-Ensures p config = Ensures-bind _ _ _ (Ensures-any Any _) λ name.
      Ensures-bind _ _ _ (Ensures-any _ _) λ image.
        Ensures-bind _ _ _ (Ensures-any _ _) λ requested. Ensures-bind _ _ _ (Ensures-any _ _) λ _.
          Ensures-bind _ (λ _. IsMade sys p config) _
            (Ensures-on_failure _ _ _
              (Ensures-weaken (λ t h. tt) (fill_disk-Ensures p config name)))
            (λ _. Ensures-pure _ _ _ (λ t h. h))

  -- What `getOrInstallImageToDisk` has done when it returns `q`.
  abbrev pub Installed : BootcDisk → DiskImageConfig → BootcDisk → Trace → Type 0
  Installed p config q t = IsKept sys p q t ⊎ IsMade sys p config t

  installs :
      (p : BootcDisk) (config : DiskImageConfig)
      → Ensures Any (bootc_install_image_to_disk sys p config) (Installed p config)
  installs p config = Ensures-mono _ (λ q t h. inr h) (bootc_install-Ensures p config)

  -- The history ends with the reading of the digest of the disk.
  abbrev HasRead : BootcDisk → Text → Trace → Type 0
  HasRead p meta = After sys Any (answered (get_xattr (disk_path p) image_meta_xattr) (done meta))

  check_digest-Ensures :
      (p : BootcDisk) (config : DiskImageConfig) (meta : Text)
      → Ensures
          (HasRead p meta)
          (check_digest sys p config (sys.unmarshal_meta meta))
          (Installed p config)
  unfolding check_digest
  check_digest-Ensures p config meta' =
      Ensures-branch _ _ _ (Ensures-answer (HasRead p meta') (sys.unmarshal_meta meta'))
        (λ digest. by_digest digest (text_eq digest p.image_id) refl) (λ e. installs p config)
    where
      by_digest :
          (digest : Text) (b : Bool)
          → text_eq digest p.image_id ≡ b
          → Ensures
              (λ t. (sys.unmarshal_meta meta' ≡ done digest) × HasRead p meta' t)
              (if b then pure p else bootc_install_image_to_disk sys p config)
              (Installed p config)
      by_digest digest true e = Ensures-pure _ _ p (λ t (same, (w, h, _)). inl (record {
        meta = meta';
        before = w;
        ends = h;
        matches = same ∙ ap done ((text_eq_iff digest p.image_id).0 e);
        unchanged = refl;
      }))
      by_digest digest false e = Ensures-weaken (λ t h. tt) (installs p config)

  get_or_install-Ensures :
      (p : BootcDisk) (config : DiskImageConfig)
      → Ensures Any (get_or_install_image_to_disk sys p config) (Installed p config)
  unfolding get_or_install_image_to_disk
  get_or_install-Ensures p config =
      Ensures-branch _ (λ _. Any) _ (Ensures-any Any _)
        (λ _.
          Ensures-branch _ _ _ (Ensures-read sys Any _) (λ meta. check_digest-Ensures p config meta)
            (λ e.
              Ensures-bind _ _ _ (Ensures-any Any _)
                (λ _. Ensures-weaken (λ t h. tt) (installs p config))))
        (λ e. Ensures-if _ _ (is_not_exist e) (installs p config) (Ensures-fail _ _ _))

-- For every system, disk, configuration and history: when `getOrInstallImageToDisk` returns without
-- an error, either the last thing it did is to read the digest of the disk that it found, this
-- digest is that of the image, and nothing of the disk changed; or the last things it did are to
-- run podman with the arguments that install this image, with this configuration, to a file in the
-- directory of the disk, to store the digest of the image on the file and to rename the file to the
-- disk, each with success and in this order.
pub get_or_install_image_to_disk-Installed :
    (sys : System) (p : BootcDisk) (config : DiskImageConfig) (t : Trace) (q : BootcDisk)
    → (get_or_install_image_to_disk sys p config t).0 ≡ ok q
    → Installed sys p config q (get_or_install_image_to_disk sys p config t).1
get_or_install_image_to_disk-Installed sys p config t q e =
    (get_or_install-Ensures sys p config).at t tt q e
