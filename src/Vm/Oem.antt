-- ===== src/Vm/Oem.antt =====
-- pkg/vm/oemstring.go: the systemd credential that puts the SSH key of the user into the VM.
use podman_bootc.Base.{Text, lit, [], ◌∷◌, ◌++◌, text_eq, if◌then◌else◌}
use podman_bootc.Go.Base64.{encode}
use podman_bootc.Go.Path.{join}
use podman_bootc.Vm.{BootcVmCommon}
use podman_bootc.World.Calls.{System, read_file}
use podman_bootc.World.Exec.{M, pure, ◌>>=◌, read}

-- `userHomeDir` in `tmpFileSshKey`.
unfoldable pub user_home_dir : Text → Text
user_home_dir username =
    if text_eq username (lit "root") then lit "/root" else join (lit "/home" ∷ username ∷ [])

-- The two lines of tmpfiles.d that `tmpFileSshKey` formats, from the encoded key.
unfoldable pub tmp_file_cmd : Text → Text → Text
unfolding user_home_dir
tmp_file_cmd username key =
    let home = user_home_dir username in
    lit "d "
    ++ (home
        ++ (lit "/.ssh 0750 "
            ++ (username
                ++ (lit " "
                    ++ (username
                        ++ (lit " -\nf+~ "
                            ++ (home
                                ++ (lit "/.ssh/authorized_keys 700 "
                                    ++ (username
                                        ++ (lit " " ++ (username ++ (lit " - " ++ key))))))))))))

module _ (sys : System) where
  -- `tmpFileSshKey(username, sshIdentity)`.
  unfoldable pub tmp_file_ssh_key : Text → Text → M Text
  tmp_file_ssh_key username ssh_identity = do
    pub_key ← read sys (read_file (ssh_identity ++ lit ".pub"))
    pure (encode (tmp_file_cmd username (encode pub_key)))

  -- `oemStringSystemdCredential(username, sshIdentity)`.
  unfoldable pub oem_string_systemd_credential : Text → Text → M Text
  oem_string_systemd_credential username ssh_identity = do
    cmd ← tmp_file_ssh_key username ssh_identity
    pure (lit "io.systemd.credential.binary:tmpfiles.extra=" ++ cmd)

  -- `(b *BootcVMCommon) oemString()`.
  unfoldable pub oem_string : BootcVmCommon → M Text
  oem_string b = do
    s ← oem_string_systemd_credential b.vm_username b.ssh_identity
    pure (lit "type=11,value=" ++ s)
