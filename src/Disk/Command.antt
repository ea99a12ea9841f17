-- ===== src/Disk/Command.antt =====
-- pkg/bootc/bootc_disk.go: the podman command that runs the installer, from `createInstallContainer`.
use podman_bootc.Base.{Text, lit, List, [], ◌∷◌, ◌++◌, Option, none, some, is_empty, if◌then◌else◌}
use podman_bootc.Go.Path.{base}
use podman_bootc.World.Calls.{System}

-- `append(args, …)` behind a test on an option.
abbrev unless_empty : Text → List Text → List Text
unless_empty value args = if is_empty value then [] else args

-- `bootcInstallArgs`: the command in the container, from the options and the name of the disk file.
unfoldable pub bootc_install_args : Text → Text → Text → List Text
bootc_install_args filesystem root_size_max file =
    (lit "bootc"
      ∷ lit "install"
      ∷ lit "to-disk"
      ∷ lit "--via-loopback"
      ∷ lit "--generic-image"
      ∷ lit "--skip-fetch-check"
      ∷ [])
    ++ (unless_empty filesystem (lit "--filesystem" ∷ filesystem ∷ [])
        ++ (unless_empty root_size_max ((lit "--root-size=" ++ root_size_max) ∷ [])
            ++ ((lit "/output/" ++ base file) ∷ [])))

abbrev log_option : Option Text → List Text
log_option none = []
log_option (some v) = (lit "--env=RUST_LOG=" ++ v) ∷ []

module _ (sys : System) where
  -- The options of `podman run`, before the image.
  unfoldable pub podman_options : Text → List Text
  podman_options directory =
      (lit "--remote"
        ∷ lit "run"
        ∷ lit "--rm"
        ∷ lit "-i"
        ∷ lit "--pid=host"
        ∷ lit "--user=root:root"
        ∷ lit "--privileged"
        ∷ lit "--security-opt=label=type:unconfined_t"
        ∷ lit "--volume=/dev:/dev"
        ∷ lit "--volume=/var/lib/containers:/var/lib/containers"
        ∷ (lit "--volume=" ++ (directory ++ lit ":/output"))
        ∷ [])
      ++ ((if sys.is_terminal then lit "-t" ∷ [] else [])
          ++ log_option (sys.lookup_env (lit "BOOTC_INSTALL_LOG")))

  -- `podmanArgs`.
  unfoldable pub podman_args : Text → Text → List Text → List Text
  unfolding podman_options
  podman_args directory image install_args = podman_options directory ++ (image ∷ install_args)
