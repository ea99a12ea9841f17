-- ===== src/Cmd/List.antt =====
-- cmd/list.go: `podman-bootc list`. The report is not modelled, only the list that it prints.
use podman_bootc.Base.{Text, List, [], ◌∷◌, if◌then◌else◌}
use podman_bootc.Cmd.Stop.{close_vm}
use podman_bootc.Config.{libvirt_uri_default}
use podman_bootc.User.{User, new_user, cache_dir}
use podman_bootc.Utils.Locks.{shared}
use podman_bootc.Vm.Platform.{BootcVm}
use podman_bootc.World.Calls.{System, Entry, VmConfig}
use podman_bootc.World.Exec.{M, pure, for_each, branch, deferring, ◌>>=◌, read_dir}

module _ {V : Type 0} (sys : System) (vm : BootcVm V) where
  -- `getVMInfo(user, libvirtUri, imageId)`.
  unfoldable pub get_vm_info : User → Text → Text → M VmConfig
  get_vm_info user libvirt_uri id = do
    v ←
        vm.new_vm
          (record { image_id = id; user = user; libvirt_uri = libvirt_uri; locking = shared })
    deferring (close_vm sys vm v) (vm.get_config v)

  -- The loop of `CollectVmList`: an entry whose VM cannot be read is skipped.
  unfoldable pub collect_entries : User → Text → List Entry → M (List VmConfig)
  collect_entries user libvirt_uri files = for_each files (pure []) (λ f again.
      if f.is_dir
      then branch (get_vm_info user libvirt_uri f.name) (λ cfg. do cfgs ← again; pure (cfg ∷ cfgs))
          (λ _. again)
      else again)

  -- `CollectVmList(user, libvirtUri)`.
  unfoldable pub collect_vm_list : User → Text → M (List VmConfig)
  collect_vm_list user libvirt_uri = do
    files ← read_dir sys (cache_dir user)
    collect_entries user libvirt_uri files

  -- `doList`, between the header and the rows of the report.
  unfoldable pub do_list : M (List VmConfig)
  do_list = do user ← new_user sys; collect_vm_list user libvirt_uri_default
