-- ===== src/Tests/Lifecycle.antt =====
-- A VM on macOS from its start to its end, on a system whose files hold what was last written to them.
use podman_bootc.Base.{
  ℕ, ◌≡◌, refl, ap, ◌∙◌, true, Text, lit, [], ◌∷◌, ◌++◌, some, text_eq_refl, arith,
}
use podman_bootc.Base.Int.{pos}
use podman_bootc.Config.{disk_image, run_pid_file}
use podman_bootc.Go.Base64.{encode}
use podman_bootc.Go.Decimal.{format_int}
use podman_bootc.Go.Errors.{ok}
use podman_bootc.Go.Path.{join}
use podman_bootc.Tests.Storage.{store, vm_a, last_written, written_by}
use podman_bootc.Utils.Files.{write_pid_file}
use podman_bootc.Utils.Process.{sigint}
use podman_bootc.Vm.Krunkit.{Krunkit, new_krunkit, record_process, start_krunkit_process}
use podman_bootc.Vm.Mac.{BootcVmMac, is_running, delete}
use podman_bootc.Vm.Mac.Lifecycle.{start_krunkit-delete}
use podman_bootc.Vm.Mac.Looks.{IsLook, Lives}
use podman_bootc.Vm.Monitor.{get_binary_path, start_krunkit}
use podman_bootc.Vm.Oem.{tmp_file_cmd, tmp_file_ssh_key, oem_string_systemd_credential}
use podman_bootc.World.Calls.{
  Answer, done, Action, write_file, remove, signal_process, acted, answered, Trace,
}
use podman_bootc.World.Commands.{start_cmd}
use podman_bootc.World.Events.{Extends, same, more}
use podman_bootc.World.Exec.{
  pure, fail, context, on_error, or_crash, ignore, attempt, read, measure, act, ◌>>=◌,
}

look_keeps :
    (path : Text) (c : Action) (r : Answer (Unit {0})) (old : Text)
    → IsLook (acted c r)
    → written_by path c old ≡ old
look_keeps path (write_file q s) r old h = elim h [ ]
look_keeps path (remove q) r old h = refl
look_keeps path _ r old h = refl

kept : (path : Text) (u w : Trace) → Extends IsLook u w → last_written path w ≡ last_written path u
kept path u w same = refl
kept path u w (more (acted c r) p k) = look_keeps path c r _ p ∙ kept path u _ k
kept path u w (more (answered c r) p k) = kept path u _ k
kept path u w (more _ p k) = kept path u _ k

store-Lives :
    (path : Text) (q : ℕ) (w : Trace)
    → Lives store path q (acted (write_file path (format_int (pos q))) (done tt) ∷ w)
store-Lives path q w = record {
  there = λ v x. (100, refl);
  content = λ v x. ap done (kept path _ v x ∙ rw (text_eq_refl path) refl);
  found = λ v x. refl;
  alive = λ v x. refl;
}

krunkit_a : Krunkit
krunkit_a =
    let k = new_krunkit [] (record {
      disk = join (lit "/cache/a" ∷ disk_image ∷ []);
      net_socket = lit "/net.sock";
      oem_string =
          lit "io.systemd.credential.binary:tmpfiles.extra="
          ++ encode (tmp_file_cmd (lit "root") (encode []));
      pid_file = join (lit "/cache/a" ∷ run_pid_file ∷ []);
    }) in
    record k { cmd = record k.cmd { process = some 100 } }

krunkit_a-starts :
    (start_krunkit store (lit "/cache/a") (lit "root") (lit "/key") (lit "/net.sock") []).0
    ≡ ok krunkit_a
unfolding krunkit_a start_krunkit start_krunkit_process record_process get_binary_path
    write_pid_file oem_string_systemd_credential tmp_file_ssh_key start_cmd pure fail context
    on_error or_crash ignore attempt read measure act ◌>>=◌ new_krunkit
krunkit_a-starts = refl

krunkit_a-runs : krunkit_a.cmd.process ≡ some 100
unfolding krunkit_a
krunkit_a-runs = refl

abbrev vm_mac : BootcVmMac
vm_mac = record {
  socket_file = [];
  common = record vm_a { pid_file = join (lit "/cache/a" ∷ run_pid_file ∷ []) };
}

start_krunkit-delete_example :
    let u =
      (start_krunkit store (lit "/cache/a") (lit "root") (lit "/key") (lit "/net.sock") []).1 in
    ((is_running store vm_mac u).0 ≡ ok true)
    × ((v : Trace) × (r : Answer (Unit {0})) × ((delete store vm_mac u).1
          ≡ acted (signal_process (pos 100) sigint) r ∷ v)
        × Extends IsLook u v)
start_krunkit-delete_example =
    start_krunkit-delete store vm_mac (lit "/cache/a") (lit "root") (lit "/key") (lit "/net.sock")
      [] krunkit_a 100 krunkit_a-starts krunkit_a-runs (omega arith) refl
      (store-Lives vm_mac.pid_file)
