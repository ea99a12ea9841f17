-- ===== src/Vm/Calm.antt =====
-- pkg/vm/vm_linux.go: panics of a VM that `NewVM` returned, while it is run and deleted.
use podman_bootc.Base.{◌≤◌, true, ◌≡◌, refl, ap, none, is_some, is_empty, length, slice_to-long, ℕ}
use podman_bootc.Disk.{BootcDisk, get_size}
use podman_bootc.Vm.{NewVmParameters, RunVmParameters, BootcVmCommon}
use podman_bootc.Vm.CloudInit.{create_ci_data_iso, parse_cloud_init}
use podman_bootc.Vm.Config.{write_config}
use podman_bootc.Vm.Linux.{
  BootcVmLinux, initial_vm, load_existing_domain, open_locked, new_vm, is_running, any_named,
  exists, shutdown, undefine, delete, poll_rounds, wait_for_vm_to_be_running, clear_stopped, run,
}
use podman_bootc.Vm.Locking.{load_existing_domain-Loaded, get_vm_cache_path-length}
use podman_bootc.Vm.Oem.{tmp_file_ssh_key, oem_string_systemd_credential, oem_string}
use podman_bootc.Vm.Template.{smbios_of, parse_domain_template}
use podman_bootc.World.Returns.{
  Returns, Returns-bind, Returns-context, Returns-fail, Returns-if, Returns-on_error, Returns-pure,
  Returns-then,
}
use podman_bootc.World.Calls.{System}
use podman_bootc.World.Calm.{
  Calm, Calm-bind, Calm-context, Calm-if, Calm-if_some, Calm-or_crash, Calm-pure, Calm-fail,
  calm_rules,
}

-- What `NewVM` promises of a VM: it is connected, and its id is long enough to be cut.
pub record IsReady (v : BootcVmLinux) : Type 0 where
  pub connected : is_some v.libvirt_connection ≡ true
  pub long_id : 12 ≤ length v.image_id

-- What a VM that runs has beside this: a domain.
pub record IsStarted (v : BootcVmLinux) : Type 0 where
  pub ready : IsReady v
  pub has_domain : is_some v.domain ≡ true

module _ (sys : System) where
  shutdown-Calm : (v : BootcVmLinux) → is_some v.domain ≡ true → Calm (shutdown sys v)
  unfolding shutdown is_running
  shutdown-Calm v h = Calm-bind (search calm_rules depth 10) λ running.
      Calm-if running (Calm-bind (Calm-or_crash v.domain h) (λ d. search calm_rules depth 6))
        (Calm-pure tt)

  exists-Calm : (v : BootcVmLinux) → is_some v.libvirt_connection ≡ true → Calm (exists sys v)
  unfolding exists any_named
  exists-Calm v h =
      Calm-bind (Calm-or_crash v.libvirt_connection h) (λ conn. search calm_rules depth 20)

  -- `Delete` of a VM that has a domain does not panic.
  pub delete-Calm : (v : BootcVmLinux) → IsStarted v → Calm (delete sys v)
  unfolding delete undefine
  delete-Calm v h = Calm-bind (Calm-context _ (shutdown-Calm v h.has_domain)) λ _.
      Calm-bind (Calm-context _ (exists-Calm v h.ready.connected)) λ found.
        Calm-if found
          (Calm-bind (Calm-or_crash v.domain h.has_domain) (λ d. search calm_rules depth 10))
          (Calm-pure tt)

  clear_stopped-Calm : (v : BootcVmLinux) → IsReady v → Calm (clear_stopped sys v)
  unfolding clear_stopped is_running
  clear_stopped-Calm v h = Calm-if_some v.domain (Calm-pure tt) λ has d.
      Calm-bind (search calm_rules depth 10) λ running.
        Calm-if running (Calm-fail _)
          (Calm-context _ (delete-Calm v (record { ready = h; has_domain = has })))

  parse_domain_template-Calm : (v : BootcVmCommon) → Calm (parse_domain_template sys v)
  unfolding parse_domain_template smbios_of oem_string oem_string_systemd_credential
      tmp_file_ssh_key parse_cloud_init create_ci_data_iso
  parse_domain_template-Calm v = search calm_rules depth 24

  wait-Calm : (d : ℕ) → Calm (wait_for_vm_to_be_running sys d)
  unfolding wait_for_vm_to_be_running poll_rounds
  wait-Calm d = search calm_rules depth 20

  -- `Run` of a VM that `NewVM` returned does not panic.
  pub run-Calm : (v : BootcVmLinux) (params : RunVmParameters) → IsReady v → Calm (run sys v params)
  unfolding run
  run-Calm v params h =
      Calm-bind (clear_stopped-Calm _ (record { connected = h.connected; long_id = h.long_id }))
        λ _. Calm-bind (Calm-context _ (parse_domain_template-Calm _)) λ (common, xml).
          Calm-bind (Calm-or_crash v.libvirt_connection h.connected)
            (λ conn. search (calm_rules, wait-Calm) depth 20)

  parse_cloud_init-same :
      (v : BootcVmCommon) → Returns (λ w. w.image_id ≡ v.image_id) (parse_cloud_init sys v)
  unfolding parse_cloud_init
  parse_cloud_init-same v =
      Returns-if _ v.has_cloud_init
        (Returns-if _ (is_empty v.cloud_init_dir) (Returns-fail _ _)
          (Returns-bind _ _ (λ _. Returns-pure _ _ refl)))
        (Returns-pure _ _ refl)

  parse_domain_template-same :
      (v : BootcVmCommon) → Returns (λ r. r.0.image_id ≡ v.image_id) (parse_domain_template sys v)
  unfolding parse_domain_template
  parse_domain_template-same v = Returns-bind _ _ λ smbios.
      Returns-then _ (Returns-context _ _ (parse_cloud_init-same v))
        (λ w same. Returns-pure _ _ same)

  -- What a successful `Run` returns has a domain, and the connection and the id of before.
  pub run-Started :
      (v : BootcVmLinux) (params : RunVmParameters)
      → IsReady v
      → Returns IsStarted (run sys v params)
  unfolding run
  run-Started v params h = Returns-bind _ _ λ _.
      Returns-then _ (Returns-context _ _ (parse_domain_template-same _)) λ (common, xml) same.
        Returns-bind _ _ λ conn. Returns-bind _ _ λ d. Returns-bind _ _ λ _. Returns-bind _ _ λ _.
          Returns-pure _ _ (record {
            ready = record { connected = h.connected; long_id = rw same h.long_id };
            has_domain = refl;
          })

  -- `NewVM` returns a VM that can be run.
  pub new_vm-Ready : (params : NewVmParameters) → Returns IsReady (new_vm sys params)
  unfolding new_vm open_locked
  new_vm-Ready params = Returns-if _ (is_empty params.image_id) (Returns-fail _ _) (
      Returns-if _ (is_empty params.libvirt_uri) (Returns-fail _ _) (
        Returns-then _
          (Returns-context _ _ (get_vm_cache_path-length sys params.image_id params.user))
          λ (id, dir) long. Returns-bind _ _ λ lock. Returns-bind _ _ λ name.
            Returns-on_error _ (loaded (initial_vm sys params id dir lock name) refl long)
              (λ e. Returns-bind _ _ λ _. Returns-fail _ _)))
    where
      loaded :
          (v : BootcVmLinux)
          → v.domain ≡ none
          → 12 ≤ length v.image_id
          → Returns IsReady (load_existing_domain sys v)
      loaded v fresh long = record {
        at = λ t w e.
            let l = (load_existing_domain-Loaded sys v fresh).at t w e in
            let same : w.image_id ≡ v.image_id =
              ap (λ (c : BootcVmCommon). c.image_id) l.same_common in
            record { connected = l.connected; long_id = rw same long };
      }

  pub write_config-Calm :
      (v : BootcVmCommon) (disk : BootcDisk)
      → 12 ≤ length v.image_id
      → Calm (write_config sys v disk)
  unfolding write_config get_size
  write_config-Calm v disk long = Calm-bind (search calm_rules depth 6) λ size.
      Calm-bind (Calm-or_crash _ (slice_to-long 12 v.image_id long))
        (λ id. search calm_rules depth 6)
