-- ===== src/Config.antt =====
-- pkg/config/config.go: the names of files and directories.
use podman_bootc.Base.{Text, lit}

unfoldable pub project_name : Text
project_name = lit "podman-bootc"

unfoldable pub cache_dir_name : Text
cache_dir_name = lit ".cache"

unfoldable pub run_pid_file : Text
run_pid_file = lit "run.pid"

unfoldable pub disk_image : Text
disk_image = lit "disk.raw"

unfoldable pub ci_data_iso : Text
ci_data_iso = lit "cidata.iso"

unfoldable pub ssh_key_file : Text
ssh_key_file = lit "sshkey"

unfoldable pub cfg_file : Text
cfg_file = lit "bc.cfg"

unfoldable pub libvirt_uri_default : Text
libvirt_uri_default = lit "qemu:///session"
