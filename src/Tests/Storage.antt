-- ===== src/Tests/Storage.antt =====
-- The round trips through files, on a system whose files hold what was last written to them, and with
-- a codec of configurations that puts the length of each text in front of it.
use podman_bootc.Base.{
  ℕ, Bool, true, false, ◌≡◌, refl, ap, Text, lit, [], ◌∷◌, ◌++◌, text_eq, text_eq_refl, slice_to,
  length, take, drop, if◌then◌else◌, arith, ◌==◌, ◌≤◌, ◌+◌,
}
use podman_bootc.Base.Int.{pos}
use podman_bootc.Disk.{get_size}
use podman_bootc.Go.Errors.{ok}
use podman_bootc.Tests.Disks.{disk_a}
use podman_bootc.Tests.Sim.{calm, id_a, user_a}
use podman_bootc.Utils.Files.{write_pid_file, read_pid_file}
use podman_bootc.Utils.PidFiles.{read_pid_file-write_pid_file}
use podman_bootc.Vm.{BootcVmCommon}
use podman_bootc.Vm.Config.{config_of, write_config, load_config_file}
use podman_bootc.Vm.Dials.{wait_for_ssh_to_be_ready-live, wait_for_ssh_to_be_ready-bounded}
use podman_bootc.Vm.Ssh.{wait_for_ssh_to_be_ready, ssh_timeout}
use podman_bootc.Vm.Stored.{IsFaithful, load_config_file-write_config}
use podman_bootc.World.Calls.{
  System, VmConfig, Action, write_file, Read, read_file, Answer, done, acted, Trace,
}
use podman_bootc.World.Exec.{pure, fail, or_crash, context, ◌>>=◌, act, measure}
use podman_bootc.World.Sleeps.{slept}

-- What was last written to a file.
abbrev pub written_by : Text → Action → Text → Text
written_by path (write_file q s) old = if text_eq q path then s else old
written_by path _ old = old

abbrev pub last_written : Text → Trace → Text
last_written path [] = []
last_written path (acted c r ∷ t) = written_by path c (last_written path t)
last_written path (_ ∷ t) = last_written path t

abbrev read_stored : Trace → Read → Answer Text
read_stored t (read_file p) = done (last_written p t)
read_stored t _ = done []

abbrev framed : Text → Text → Text
framed s rest = length s ∷ (s ++ rest)

abbrev frame_of : Text → Text × Text
frame_of [] = ([], [])
frame_of (n ∷ s) = (take n s, drop n s)

take-length : (s r : Text) → take (length s) (s ++ r) ≡ s
take-length [] r = refl
take-length (c ∷ s) r = ap (◌∷◌ c) (take-length s r)

drop-length : (s r : Text) → drop (length s) (s ++ r) ≡ r
drop-length [] r = refl
drop-length (c ∷ s) r = drop-length s r

abbrev bit : Bool → ℕ
bit true = 1
bit false = 0

abbrev encode_config : VmConfig → Text
encode_config c =
    c.ssh_port
    ∷ bit c.running
    ∷ framed c.id
        (framed c.ssh_identity (framed c.repo_tag (framed c.created (framed c.disk_size []))))

abbrev decode_fields : ℕ → Bool → Text → VmConfig
decode_fields p b s0 =
    let s1 = (frame_of s0).1 in
    let s2 = (frame_of s1).1 in
    let s3 = (frame_of s2).1 in
    let s4 = (frame_of s3).1 in
    record {
      id = (frame_of s0).0;
      ssh_port = p;
      ssh_identity = (frame_of s1).0;
      repo_tag = (frame_of s2).0;
      created = (frame_of s3).0;
      disk_size = (frame_of s4).0;
      running = b;
    }

abbrev decode_config : Text → Answer VmConfig
decode_config (p ∷ b ∷ s) = done (decode_fields p (b == 1) s)
decode_config _ = done (decode_fields 0 false [])

abbrev first_byte : Text → ℕ
first_byte [] = 0
first_byte (n ∷ s) = n

abbrev pub store : System
store = record calm {
  read = read_stored;
  marshal_config = encode_config;
  unmarshal_config = decode_config;
  format_time = λ n. n ∷ [];
  parse_time = λ s. done (first_byte s);
}

bit_back : (b : Bool) → (bit b == 1) ≡ b
bit_back true = refl
bit_back false = refl

config_comes_back : (c : VmConfig) → decode_config (encode_config c) ≡ done c
config_comes_back c = simp (take-length, drop-length, bit_back)

store-IsFaithful : IsFaithful store
store-IsFaithful = record {
  config_back = config_comes_back;
  time_back = λ n. refl;
  size_back = λ n. (0, refl);
  file_back = λ path content t. rw (text_eq_refl path) refl;
}

abbrev pub vm_a : BootcVmCommon
vm_a = record {
  vm_name = lit "podman-bootc-a";
  cache_dir = lit "/d";
  disk_image_path = lit "/d/disk.raw";
  vm_username = lit "root";
  user = user_a;
  ssh_identity = lit "/d/sshkey";
  ssh_port = 2222;
  remove_vm = false;
  background = false;
  cmd = [];
  pid_file = [];
  image_id = id_a;
  has_cloud_init = false;
  cloud_init_dir = [];
  cloud_init_args = [];
  cache_dir_lock = record { path = lit "/l" };
}

written : (write_config store vm_a disk_a []).0 ≡ ok tt
unfolding write_config config_of get_size slice_to pure or_crash context ◌>>=◌ act measure
written = refl

load_config_file-write_config_example :
    (w : VmConfig) × ((load_config_file store vm_a (write_config store vm_a disk_a []).1).0 ≡ ok w)
    × (w.ssh_port ≡ vm_a.ssh_port)
    × (w.ssh_identity ≡ vm_a.ssh_identity)
    × (w.repo_tag ≡ disk_a.repo_tag)
load_config_file-write_config_example =
    load_config_file-write_config store vm_a disk_a [] store-IsFaithful written

pid_written : (write_pid_file store (lit "/p") (pos 4711) []).0 ≡ ok tt
unfolding write_pid_file act fail
pid_written = refl

read_pid_file-write_pid_file_example :
    (read_pid_file store (lit "/p") (write_pid_file store (lit "/p") (pos 4711) []).1).0
    ≡ ok (pos 4711)
read_pid_file-write_pid_file_example =
    read_pid_file-write_pid_file store (lit "/p") 4711 []
      (λ content t. (100, refl, rw (text_eq_refl (lit "/p")) refl)) (omega arith) pid_written

wait_for_ssh_to_be_ready-live_example : (wait_for_ssh_to_be_ready calm vm_a []).0 ≡ ok tt
wait_for_ssh_to_be_ready-live_example =
    wait_for_ssh_to_be_ready-live calm vm_a (lit "text") 3000 [] refl refl (omega arith)
      (λ u h. refl)

wait_for_ssh_to_be_ready-bounded_example :
    slept (wait_for_ssh_to_be_ready calm vm_a []).1 ≤ slept [] + ssh_timeout
wait_for_ssh_to_be_ready-bounded_example = wait_for_ssh_to_be_ready-bounded calm vm_a []
