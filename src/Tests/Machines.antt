-- ===== src/Tests/Machines.antt =====
-- The properties of lookups, loops and choices, on concrete inputs.
use podman_bootc.Vm.Platform.{linux_vm}
use podman_bootc.Base.{
  ℕ, ◌+◌, ◌*◌, ◌^◌, ◌≡◌, ◌≢◌, refl, ◌≤◌, ◌⊎◌, Bool, true, false, ltb, Text, lit, [], ◌∷◌, ◌++◌,
  length, Member, here, there, arith, if◌then◌else◌,
}
use podman_bootc.Cmd.Calm.{do_list-ne-panic, do_ssh-ne-panic}
use podman_bootc.Cmd.List.{do_list}
use podman_bootc.Cmd.Rm.{do_remove}
use podman_bootc.Cmd.Spares.{Spares, do_remove-Spares}
use podman_bootc.Cmd.Ssh.{do_ssh}
use podman_bootc.Go.Errors.{Result, ok, err, panic, new_error}
use podman_bootc.Go.Path.{join}
use podman_bootc.Tests.Sim.{calm, entries, id_a, user_a}
use podman_bootc.User.{cache_dir}
use podman_bootc.Utils.Backoff.{
  wait_for_file_with_backoffs-bounded, wait_for_file_with_backoffs-live,
}
use podman_bootc.Utils.Files.{wait_for_file_with_backoffs}
use podman_bootc.Utils.Machine.{default_machine_name, find_default}
use podman_bootc.Utils.Selection.{default_machine_name-runs, default_machine_name-total}
use podman_bootc.Vm.Cache.{get_vm_cache_path}
use podman_bootc.Vm.Linux.{wait_for_vm_to_be_running, start_timeout}
use podman_bootc.Vm.Lookup.{
  IsVm, get_vm_cache_path-finds, get_vm_cache_path-full_id, get_vm_cache_path-last,
}
use podman_bootc.Vm.Waits.{
  polls, RunsAfter, wait_for_vm_to_be_running-bounded, wait_for_vm_to_be_running-live,
}
use podman_bootc.World.Calls.{
  System, Entry, MachineList, Measure, domain_state, Answer, done, Trace,
}
use podman_bootc.World.Judged.{ExtendsBy}
use podman_bootc.World.Sleeps.{slept}

abbrev entry_a : Entry
entry_a = record { name = id_a; is_dir = true }

abbrev missing : Text → Result (Text × Text)
missing id = err (new_error (lit "local installation '" ++ (id ++ lit "' does not exists")))

get_vm_cache_path-finds_example :
    ((e : Entry) × Member e entries
      × IsVm (b'a' ∷ []) e
      × ((get_vm_cache_path calm (b'a' ∷ []) user_a []).0
          ≡ ok (e.name, join (cache_dir user_a ∷ e.name ∷ []))))
    ⊎ (((e : Entry) → Member e entries → ¬ IsVm (b'a' ∷ []) e)
        × ((get_vm_cache_path calm (b'a' ∷ []) user_a []).0 ≡ missing (b'a' ∷ [])))
get_vm_cache_path-finds_example = get_vm_cache_path-finds calm (b'a' ∷ []) user_a [] entries refl

get_vm_cache_path-full_id_example :
    (get_vm_cache_path calm id_a user_a []).0 ≡ ok (id_a, join (cache_dir user_a ∷ id_a ∷ []))
get_vm_cache_path-full_id_example =
    get_vm_cache_path-full_id calm entry_a user_a [] entries refl (there here) refl refl

get_vm_cache_path-last_example :
    (get_vm_cache_path calm (b'a' ∷ []) user_a []).0
    ≡ ok (id_a, join (cache_dir user_a ∷ id_a ∷ []))
get_vm_cache_path-last_example =
    get_vm_cache_path-last calm (b'a' ∷ []) user_a []
      (record { name = lit "notes"; is_dir = false } ∷ []) entry_a [] refl
      (record { directory = refl; long = refl; rest = _; begins = refl }) (λ f m. elim m [ ])

do_remove-Spares_example :
    ExtendsBy Spares [] (do_remove calm (linux_vm calm) false false (id_a ∷ []) []).1
do_remove-Spares_example = do_remove-Spares calm (λ d r t. refl) false (id_a ∷ []) []

do_list-ne-panic_example : (do_list calm (linux_vm calm) []).0 ≢ panic
do_list-ne-panic_example = do_list-ne-panic calm []

do_ssh-ne-panic_example : (do_ssh calm (linux_vm calm) (lit "root") (id_a ∷ []) []).0 ≢ panic
do_ssh-ne-panic_example = do_ssh-ne-panic calm (lit "root") id_a [] []

-- A domain that runs from the fourth question on.
abbrev measure_slow : Trace → Measure → Answer ℕ
measure_slow t (domain_state d) = if ltb (polls t) 3 then done 5 else done 1
measure_slow t _ = done 100

abbrev slow : System
slow = record calm { measure = measure_slow }

slow_answers : (u : Trace) → (s : ℕ) × (measure_slow u (domain_state 7) ≡ done s)
slow_answers u = by_test (ltb (polls u) 3)
  where
    by_test : (b : Bool) → (s : ℕ) × ((if b then done 5 else done 1) ≡ done s)
    by_test true = (5, refl)
    by_test false = (1, refl)

slow_runs : RunsAfter slow 7 3 []
slow_runs u h = late (polls u) h
  where
    late : (n : ℕ) → 3 ≤ n → ◌≡◌ {A = Answer ℕ} (if ltb n 3 then done 5 else done 1) (done 1)
    late n k = ground arith

wait_for_vm_to_be_running-live_example : (wait_for_vm_to_be_running slow 7 []).0 ≡ ok tt
wait_for_vm_to_be_running-live_example =
    wait_for_vm_to_be_running-live slow 7 3 [] (omega arith) slow_answers slow_runs

wait_for_vm_to_be_running-bounded_example :
    (polls (wait_for_vm_to_be_running slow 7 []).1 ≤ polls [] + 60)
    × (slept (wait_for_vm_to_be_running slow 7 []).1 ≤ slept [] + start_timeout)
wait_for_vm_to_be_running-bounded_example = wait_for_vm_to_be_running-bounded slow 7 []

wait_for_file_with_backoffs-bounded_example :
    slept (wait_for_file_with_backoffs calm 5 100 (lit "/run.pid") []).1 + 100
    ≤ slept [] + 100 * 2 ^ 5
wait_for_file_with_backoffs-bounded_example =
    wait_for_file_with_backoffs-bounded calm 5 100 (lit "/run.pid") []

wait_for_file_with_backoffs-live_example :
    (wait_for_file_with_backoffs calm 5 100 (lit "/run.pid") []).0 ≡ ok tt
wait_for_file_with_backoffs-live_example =
    wait_for_file_with_backoffs-live calm 4 100 (lit "/run.pid") [] 1000 (omega arith)
      (λ u h. (100, refl))

abbrev machine_off : MachineList
machine_off = record { name = lit "off"; running = false; default = false }

abbrev machine_on : MachineList
machine_on = record { name = lit "on"; running = true; default = true }

chosen : default_machine_name (machine_off ∷ machine_on ∷ []) ≡ ok (lit "on")
unfolding default_machine_name find_default
chosen = refl

default_machine_name-runs_example :
    (m : MachineList) × Member m (machine_off ∷ machine_on ∷ [])
    × (m.running ≡ true)
    × (m.name ≡ lit "on")
    × ((length (machine_off ∷ machine_on ∷ []) ≡ 1) ⊎ (m.default ≡ true))
default_machine_name-runs_example =
    default_machine_name-runs (machine_off ∷ machine_on ∷ []) (lit "on") chosen

default_machine_name-total_example :
    (n : Text) × (default_machine_name (machine_off ∷ machine_on ∷ []) ≡ ok n)
default_machine_name-total_example =
    default_machine_name-total (machine_off ∷ machine_on ∷ []) machine_on (omega arith)
      (λ d. d, (λ d. d, tt)) (there here) refl
