-- ===== src/Tests/Sim.antt =====
-- A concrete system that the tests run against: one user, one disk image whose VM is a running domain
-- of libvirt, a podman machine, and every call answered with success.
use podman_bootc.Base.{ℕ, zero, suc, true, false, List, [], ◌∷◌, ◌++◌, Text, lit, none}
use podman_bootc.Base.Int.{pos}
use podman_bootc.Go.Errors.{new_error}
use podman_bootc.User.{User}
use podman_bootc.World.Calls.{
  System, Read, domain_name, Measure, connect, lookup_domain, domain_state, Entry, VmConfig,
  ImageSummary, tagged, Answer, done, failed, Trace,
}

abbrev repeat : ℕ → ℕ → Text
repeat zero c = []
repeat (suc n) c = c ∷ repeat n c

-- The id of the one disk image, and a listing of the cache directory that has it.
abbrev pub id_a : Text
id_a = repeat 64 97

abbrev pub entries : List Entry
entries = record { name = lit "notes"; is_dir = false } ∷ record { name = id_a; is_dir = true } ∷ []

abbrev pub config_a : VmConfig
config_a = record {
  id = id_a;
  ssh_port = 2222;
  ssh_identity = lit "/key";
  repo_tag = lit "quay.io/a:latest";
  created = lit "now";
  disk_size = lit "10GB";
  running = false;
}

abbrev pub image_a : ImageSummary
image_a = record {
  id = id_a;
  created = pos 1700000000;
  size = pos 1000;
  repo_tags = lit "quay.io/a:latest" ∷ [];
  history = [];
}

abbrev read_calm : Trace → Read → Answer Text
read_calm t (domain_name d) = done (lit "podman-bootc-" ++ repeat 12 97)
read_calm t _ = done (lit "text")

abbrev measure_calm : Trace → Measure → Answer ℕ
measure_calm t (connect uri) = done 3
measure_calm t (lookup_domain c n) = done 7
measure_calm t (domain_state d) = done 1
measure_calm t _ = done 100

abbrev pub calm : System
calm = record {
  is_darwin = false;
  xdg_runtime_dir = lit "/run/user/1000";
  lookup_env = λ n. none;
  is_terminal = false;
  from_human_size = λ s. done (pos 20000000000);
  human_size_with_precision = λ n p. lit "10GB";
  human_duration_between = λ a b. lit "2 hours";
  format_time = λ n. lit "now";
  parse_time = λ s. done 0;
  parse_float = λ s. done 0;
  marshal_config = λ c. lit "{}";
  unmarshal_config = λ s. done config_a;
  marshal_meta = λ s. s;
  unmarshal_meta = λ s. done s;
  unmarshal_machine_list = λ s. failed (new_error []);
  unmarshal_machine_inspect = λ s. failed (new_error []);
  parse_level = λ s. done tt;
  exact_args = λ n args. done tt;
  minimum_args = λ n args. done tt;
  parse_reference = λ s. done (tagged s (lit "latest"));
  human_size_of = λ n. lit "10.5GB";
  human_duration_since = λ n now. lit "2 hours";
  format_time_of = λ n. lit "then";
  gvproxy_cmdline = λ port pid_file socket. pid_file ∷ socket ∷ [];
  clock = λ t. 0;
  act = λ t c. done tt;
  test = λ t c. done true;
  read = read_calm;
  measure = measure_calm;
  read_dir = λ t p. done entries;
  list_domains = λ t c. done (7 ∷ []);
  inspect_image = λ t n. done (record { id = id_a; size = pos 1000; repo_tags = [] });
  current_user = λ t. done (record { home_dir = lit "/home/u"; username = lit "u" });
  load_machine = λ t. done (record { identity_path = lit "/key"; rootful = true });
  list_images = λ t k v. done (image_a ∷ []);
}

abbrev pub user_a : User
user_a = record { os_user = record { home_dir = lit "/home/u"; username = lit "u" } }
