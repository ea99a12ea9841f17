-- ===== src/Tests/Processes.antt =====
-- Processes beside each other, on a concrete run.
use podman_bootc.Vm.Platform.{linux_vm}
use podman_bootc.Base.{
  ℕ, ◌≡◌, ◌≢◌, refl, ap, ◌∙◌, true, false, Text, lit, [], ◌∷◌, ◌++◌, take, drop, has_prefix,
  slice_to, text_eq,
}
use podman_bootc.World.Exec.{
  ◌>>=◌, or_crash, context, current_user, on_error, read_dir, act, attempt, branch, crash,
  deferring, fail, for_each, if_nil, ignore, list_domains, measure, pure, read, test,
}
use podman_bootc.Vm.Cache.{delete_from_cache}
use podman_bootc.Vm.Linux.{
  new_vm, any_named, close_libvirt, delete, exists, is_running, load_existing_domain, open_locked,
  shutdown, undefine, unlock_vm, vm_name_of,
}
use podman_bootc.Config.{libvirt_uri_default, cache_dir_name, disk_image, project_name}
use podman_bootc.Vm.Cache.{get_vm_cache_path, find_full_id, lock_vm, check_cache_dir, is_match}
use podman_bootc.Utils.Locks.Refines.{
  free, KeepsOthers, Tried, view, with_history, try_lock_in-refines,
}
use podman_bootc.Utils.Locks.{CacheLock, exclusive, try_lock_in, new_cache_lock, unlock}
use podman_bootc.Cmd.Stop.{close_vm}
use podman_bootc.Utils.Files.{file_exists}
use podman_bootc.Cmd.Exclusion.{do_remove-excludes}
use podman_bootc.Cmd.Rm.{do_remove, prune, force_kill_vm}
use podman_bootc.Tests.Sim.{calm, id_a, user_a}
use podman_bootc.Go.Path.{join, base}
use podman_bootc.User.{cache_dir, new_user, run_dir}
use podman_bootc.World.Locks.Counts.{held-nil, held_exclusive-nil}
use podman_bootc.Vm.Exclusive.{lock_file}
use podman_bootc.World.Calls.{
  done, failed, Event, acted, tested, try_lock, try_rlock, remove_all, Test, try_lock, try_rlock,
  Trace,
}
use podman_bootc.World.Interleaved.{
  Histories, IsAllowed, after, step, Reach, begin, go, after_other, not_same,
}
use podman_bootc.World.Locks.{held}

abbrev dir_a : Text
dir_a = join (cache_dir user_a ∷ id_a ∷ [])

trace_a : Trace
trace_a = (do_remove calm (linux_vm calm) false true (id_a ∷ []) []).1

pre_a : Trace
pre_a = drop 3 trace_a

trace_a-removes :
    (do_remove calm (linux_vm calm) false true (id_a ∷ []) []).1
    ≡ take 2 trace_a ++ (acted (remove_all dir_a) (done tt) ∷ (pre_a ++ []))
unfolding trace_a pre_a do_remove ◌>>=◌ or_crash prune new_user context current_user on_error new_vm
    libvirt_uri_default lit get_vm_cache_path read_dir find_full_id has_prefix lock_vm try_lock_in
    slice_to text_eq force_kill_vm close_vm cache_dir_name disk_image project_name base join
    cache_dir run_dir file_exists new_cache_lock unlock check_cache_dir is_match any_named
    close_libvirt delete delete_from_cache exists is_running load_existing_domain open_locked
    shutdown undefine unlock_vm vm_name_of act attempt branch crash deferring fail for_each if_nil
    ignore list_domains measure pure read test
trace_a-removes = refl

-- One process alone may take any lock.
alone : (t : Trace) → (s : Histories) × Reach s × (s 0 ≡ t) × ((q : ℕ) → q ≢ 0 → s q ≡ [])
alone [] = ((λ p. []), begin, refl, λ q n. refl)
alone (e ∷ t) =
    let (s, r, own, others) = alone t in
    (
      after s 0 e,
      go r (step 0 e (allowed s others e)),
      ap (◌∷◌ e) own,
      λ q n. after_other s 0 q e (not_same 0 q n) ∙ others q n,
    )
  where
    allowed : (s : Histories) → ((q : ℕ) → q ≢ 0 → s q ≡ []) → (e : Event) → IsAllowed s 0 e
    allowed s others (tested (try_lock l) (done true)) = λ q n. rw (others q n) (held-nil l)
    allowed s others (tested (try_rlock l) (done true)) =
        λ q n. rw (others q n) (held_exclusive-nil l)
    allowed s others (tested c (done false)) = tt
    allowed s others (tested c (failed x)) = tt
    allowed s others _ = tt

do_remove-excludes_example : held (lock_file calm user_a dir_a) ((alone (pre_a ++ [])).0 1) ≡ 0
do_remove-excludes_example =
    do_remove-excludes calm false true (id_a ∷ []) [] pre_a (take 2 trace_a) dir_a (done tt)
      (alone (pre_a ++ [])).0 0 1 user_a trace_a-removes (alone (pre_a ++ [])).1
      (alone (pre_a ++ [])).2 (λ e. cc)

-- A lock library that grants nothing while a process has the file.
abbrev lock_a : CacheLock
lock_a = record { path = lit "/l" }

abbrev quiet : Histories
quiet q = []

quiet-IsAllowed : (c : Test) → IsAllowed quiet 1 (tested c (calm.test (quiet 1) c))
quiet-IsAllowed (try_lock l) = λ q n. held-nil l
quiet-IsAllowed (try_rlock l) = λ q n. held_exclusive-nil l

quiet-free : view (lit "/l") quiet 1 ≡ free
quiet-free = rw (held-nil (lit "/l"), held_exclusive-nil (lit "/l")) refl

try_lock_in-refines_example :
    let r = try_lock_in calm lock_a exclusive (quiet 1) in
    KeepsOthers (view (lit "/l") quiet) (view (lit "/l") (with_history quiet 1 r.1)) 1
    × Tried (view (lit "/l") quiet) (view (lit "/l") (with_history quiet 1 r.1)) 1 exclusive r.0
try_lock_in-refines_example =
    try_lock_in-refines calm lock_a exclusive quiet 1 quiet-free quiet-IsAllowed
