-- ===== src/Credentials.antt =====
-- pkg/credentials/ssh.go: the SSH key pair of a VM, made by ssh-keygen.
use podman_bootc.Base.{Text, lit, [], ◌∷◌, ◌++◌}
use podman_bootc.Config.{ssh_key_file}
use podman_bootc.Go.Errors.{wrap}
use podman_bootc.Go.Path.{join}
use podman_bootc.World.Calls.{
  System, remove, open_stderr_pipe, start_command, wait_command, read_stderr,
}
use podman_bootc.World.Exec.{
  M, pure, fail, branch, context, ignore, ◌>>=◌, ◌>>◌, act, read, measure,
}

module _ (sys : System) where
  -- `Generatekeys(outputDir)`.
  unfoldable pub generate_keys : Text → M Text
  generate_keys output_dir = do
    let identity = join (output_dir ∷ ssh_key_file ∷ [])
    ignore (act sys (remove identity))
    ignore (act sys (remove (identity ++ lit ".pub")))
    context (lit "ssh key generation: redirecting stderr") (act sys open_stderr_pipe)
    pid ← context (lit "ssh key generation: executing ssh-keygen") (
        measure sys (
          start_command (lit "ssh-keygen")
            (lit "-N" ∷ [] ∷ lit "-t" ∷ lit "rsa" ∷ lit "-f" ∷ identity ∷ [])))
    branch (act sys (wait_command pid)) (λ _. pure identity)
        (λ wait_err.
          branch (read sys read_stderr)
            (λ text. fail (wrap (lit "failed to generate ssh keys: " ++ text) wait_err))
            (λ _. fail (wrap (lit "ssh key generation, unable to read from stderr") wait_err)))
