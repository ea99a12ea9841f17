-- ===== src/Utils/Machine.antt =====
-- pkg/utils/podman.go: finding the podman machine, and connecting to it.
use podman_bootc.Base.{
  Bool, true, false, not, List, [], ◌∷◌, ◌++◌, Text, lit, Option, none, some, ◌&&◌, if◌then◌else◌,
}
use podman_bootc.Go.Errors
use podman_bootc.Go.Errors.{
  Error, Result, ok, err, panic, new_error, cause, Cause, incompatible_machine_config,
  vm_does_not_exist,
}
use podman_bootc.World.Calls.{
  System, MachineList, MachineInspect, get_provider, get_machine_dirs, connection_info,
  command_output, stat_size, connect_podman,
}
use podman_bootc.World.Exec.{
  M, pure, fail, lift, answer, context, on_error, ◌>>=◌, ◌>>◌, act, read, measure, load_machine,
}

-- `machineInfo`.
pub record MachineInfo : Type 0 where
  pub podman_socket : Text
  pub ssh_identity_path : Text
  pub rootful : Bool

-- The two causes that `getMachineInfo` looks for with `errors.As`.
abbrev pub wants_v4 : Cause → Bool
wants_v4 incompatible_machine_config = true
wants_v4 vm_does_not_exist = true
wants_v4 _ = false

abbrev pub not_running : Error
not_running = new_error (lit "the default podman machine is not running")

-- The loop of `getPv4MachineInfo` over several machines: the name of the default machine so far.
unfoldable pub find_default : List MachineList → Option Text → Result (Option Text)
find_default [] found = ok found
find_default (m ∷ machines) found =
    let rest = find_default machines (if m.default then some m.name else found) in
    if m.default && not m.running then err not_running else rest

abbrev pub named : Option Text → Result Text
named none = err (new_error (lit "a default podman machine is not running"))
named (some name) = ok name

-- The choice of the default machine in `getPv4MachineInfo`.
unfoldable pub default_machine_name : List MachineList → Result Text
default_machine_name [] = err (new_error (lit "no podman machine found"))
default_machine_name (m ∷ []) = if not m.running then err not_running else ok m.name
default_machine_name (m ∷ n ∷ machines) = Errors.◌>>=◌ (find_default (m ∷ n ∷ machines) none) named

module _ (sys : System) where
  -- `getPv5MachineInfo()`.
  unfoldable pub get_pv5_machine_info : M MachineInfo
  get_pv5_machine_info = do
    context (lit "getting podman machine provider") (act sys get_provider)
    context (lit "getting podman machine dirs") (act sys get_machine_dirs)
    pm ← context (lit "load podman machine info") (load_machine sys)
    socket ← context (lit "getting podman machine connection info") (read sys connection_info)
    pure (record {
      podman_socket = socket;
      ssh_identity_path = pm.identity_path;
      rootful = pm.rootful;
    })

  -- The last part of `getPv4MachineInfo`, on what `podman machine inspect` printed.
  unfoldable pub info_of_inspect : List MachineInspect → M MachineInfo
  info_of_inspect [] = fail (new_error (lit "no podman machine found"))
  info_of_inspect (m ∷ machines) = pure (record {
    podman_socket = m.socket_path;
    ssh_identity_path = m.identity_path;
    rootful = m.rootful;
  })

  -- `getPv4MachineInfo()`.
  unfoldable pub get_pv4_machine_info : M MachineInfo
  get_pv4_machine_info = do
    listed ← context (lit "failed to list podman machines") (
        read sys (
          command_output (lit "podman")
            (lit "machine" ∷ lit "list" ∷ lit "--format" ∷ lit "json" ∷ [])))
    machines ←
        context (lit "failed to unmarshal podman machine inspect output")
          (answer (sys.unmarshal_machine_list listed))
    name ← lift (default_machine_name machines)
    inspected ←
        context (lit "failed to inspect podman machine")
          (read sys (command_output (lit "podman") (lit "machine" ∷ lit "inspect" ∷ name ∷ [])))
    found ←
        context (lit "failed to unmarshal podman machine inspect output")
          (answer (sys.unmarshal_machine_inspect inspected))
    info_of_inspect found

  -- `getMachineInfo()`.
  unfoldable pub get_machine_info : M MachineInfo
  get_machine_info =
      on_error get_pv5_machine_info
        (λ e. if wants_v4 (cause e) then get_pv4_machine_info else fail e)

  -- `GetMachineContext()`; the context is the connection, of which the path of the key is kept.
  unfoldable pub get_machine_context : M Text
  get_machine_context = do
    info ← context (lit "unable to get podman machine info") get_machine_info
    if not info.rootful
        then fail (
            new_error
              (lit "rootful podman machine is required, please run 'podman machine set --rootful'"))
        else (do
          _ ←
              context (lit "podman machine socket is missing")
                (measure sys (stat_size info.podman_socket))
          context (lit "failed to connect to the podman socket") (
              act sys (connect_podman (lit "unix://" ++ info.podman_socket) info.ssh_identity_path))
          pure info.ssh_identity_path)
