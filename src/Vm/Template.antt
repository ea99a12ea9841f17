-- ===== src/Vm/Template.antt =====
-- pkg/vm/domain-template.xml, and the fields that `parseDomainTemplate` of pkg/vm/vm_linux.go puts
-- into it. text/template copies the texts as they are.
use podman_bootc.Base.{Text, lit, [], ◌++◌, is_empty, if◌then◌else◌}
use podman_bootc.Base.Int.{pos}
use podman_bootc.Go.Decimal.{format_int}
use podman_bootc.Vm.{BootcVmCommon}
use podman_bootc.Vm.CloudInit.{parse_cloud_init}
use podman_bootc.Vm.Oem.{oem_string}
use podman_bootc.World.Calls.{System}
use podman_bootc.World.Exec.{M, pure, context, ◌>>=◌}

-- `TemplateParams`, less the two fields that the template does not name.
pub record TemplateParams : Type 0 where
  pub disk_image_path : Text
  pub port : Text
  pub smbios : Text
  pub name : Text
  pub cloud_init_cdrom : Text

before_name : Text
before_name =
    lit "<domain type=\"kvm\" xmlns:qemu=\"http://libvirt.org/schemas/domain/qemu/1.0\">\n  <name>"

before_disk : Text
before_disk =
    lit
      "</name>\n  <memory unit=\"GiB\">2</memory>\n  <memoryBacking>\n    <source type=\"memfd\"/>\n"
    ++ (lit "    <access mode=\"shared\"/>\n  </memoryBacking>\n  <vcpu>2</vcpu>\n  <features>\n"
        ++ (lit "    <acpi></acpi>\n  </features>\n  <cpu mode=\"host-model\"/>\n"
            ++ (lit "  <on_poweroff>destroy</on_poweroff>\n  <on_reboot>restart</on_reboot>\n"
                ++ (lit
                      "  <on_crash>destroy</on_crash>\n  <os firmware=\"efi\">\n    <type>hvm</type>\n"
                    ++ (lit
                          "    <boot dev=\"hd\"></boot>\n  </os>\n  <devices>\n    <serial type=\"pty\" />\n"
                        ++ (lit "    <disk device=\"disk\" type=\"file\">\n"
                            ++ lit
                                "      <driver name=\"qemu\" type=\"raw\"></driver>\n      <source file=\""))))))

before_cdrom : Text
before_cdrom =
    lit "\"></source>\n      <target bus=\"virtio\" dev=\"vda\"></target>\n      <transient/>\n"
    ++ (lit
          "    </disk>\n    <tpm model='tpm-tis'>\n      <backend type='emulator' version='2.0'>\n"
        ++ (lit "        <active_pcr_banks>\n            <sha256/>\n        </active_pcr_banks>\n"
            ++ lit "      </backend>\n    </tpm>\n    "))

before_port : Text
before_port =
    lit "\n  </devices>\n  <qemu:commandline>\n    <qemu:arg value='-netdev'/>\n"
    ++ lit "    <qemu:arg value='user,id=n0,hostfwd=tcp::"

before_smbios : Text
before_smbios =
    lit "-:22'/>\n    <qemu:arg value='-device' />\n"
    ++ lit "    <qemu:arg value='virtio-net-pci,netdev=n0,bus=pci.0,addr=0x10' />\n    "

after_smbios : Text
after_smbios = lit "\n  </qemu:commandline>\n</domain>\n"

-- `tmpl.Execute` on the template.
unfoldable pub execute_template : TemplateParams → Text
unfolding before_name before_disk before_cdrom before_port before_smbios after_smbios
execute_template p =
    before_name
    ++ (p.name
        ++ (before_disk
            ++ (p.disk_image_path
                ++ (before_cdrom
                    ++ (p.cloud_init_cdrom
                        ++ (before_port
                            ++ (p.port ++ (before_smbios ++ (p.smbios ++ after_smbios)))))))))

-- The arguments of qemu with the OEM string.
unfoldable pub smbios_arg : Text → Text
smbios_arg cmd =
    lit "\n\t\t\t<qemu:arg value='-smbios'/>\n\t\t\t<qemu:arg value='" ++ (cmd ++ lit "'/>\n\t\t")

-- The CD-ROM with the cloud-init data.
unfoldable pub cloud_init_cdrom_of : Text → Text
cloud_init_cdrom_of iso =
    lit
      "\n\t\t\t<disk type=\"file\" device=\"cdrom\">\n\t\t\t\t<driver name=\"qemu\" type=\"raw\"/>\n"
    ++ (lit "\t\t\t\t<source file=\""
        ++ (iso
            ++ (lit
                  "\"></source>\n\t\t\t\t<target dev=\"sda\" bus=\"sata\"/>\n\t\t\t\t<readonly/>\n"
                ++ lit "\t\t\t</disk>\n\t\t")))

module _ (sys : System) where
  unfoldable pub smbios_of : BootcVmCommon → M Text
  smbios_of v = if is_empty v.ssh_identity then pure [] else (do
    cmd ← context (lit "unable to get OEM string") (oem_string sys v)
    pure (smbios_arg cmd))

  -- `(v *BootcVMLinux) parseDomainTemplate()`: the VM with its cloud-init image, and the XML.
  unfoldable pub parse_domain_template : BootcVmCommon → M (BootcVmCommon × Text)
  parse_domain_template v = do
    smbios ← smbios_of v
    v' ← context (lit "unable to set cloud-init") (parse_cloud_init sys v)
    pure (
      v',
      execute_template (record {
        disk_image_path = v.disk_image_path;
        port = format_int (pos v.ssh_port);
        smbios = smbios;
        name = v.vm_name;
        cloud_init_cdrom = if v'.has_cloud_init then cloud_init_cdrom_of v'.cloud_init_args else [];
      }),
    )
