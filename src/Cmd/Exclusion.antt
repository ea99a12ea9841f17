-- ===== src/Cmd/Exclusion.antt =====
-- cmd/rm.go and cmd/stop.go: what is removed beside other processes of the program.
use podman_bootc.Vm.Platform.{linux_vm}
use podman_bootc.Base.{
  ℕ, Bool, ◌≡◌, ap, ◌≢◌, List, [], ◌∷◌, ◌++◌, Text, length, length-append, arith,
}
use podman_bootc.Cmd.Guards.{remove-IsGuarded}
use podman_bootc.Cmd.Rm.{do_remove}
use podman_bootc.User.{User}
use podman_bootc.Vm.Exclusive.{lock_file}
use podman_bootc.World.Calls.{System, Answer, Event, Trace, acted, remove_all}
use podman_bootc.World.Interleaved.{Histories, Reach, Reach-IsExclusive}
use podman_bootc.World.Judged.{ExtendsBy, start, next}
use podman_bootc.World.Locks.{held}

too_long : (t post pre : Trace) (e : Event) → t ≡ post ++ (e ∷ (pre ++ t)) → ⊥
too_long t post pre e h =
    absurd (omega (arith, ap length h, length-append post (e ∷ (pre ++ t)), length-append pre t))

-- Each event of a run is judged at the history just before it.
ExtendsBy-at :
    {P : Trace → Event → Type 0} {t u : Trace} (post pre : Trace) (e : Event)
    → ExtendsBy P t u
    → u ≡ post ++ (e ∷ (pre ++ t))
    → P (pre ++ t) e
ExtendsBy-at post pre e start h = absurd (too_long _ post pre e h)
ExtendsBy-at {t} [] pre e (next {u} d p k) h =
    let same_event : d ≡ e = cc in
    let same_history : u ≡ pre ++ t = cc in rw (← same_history, ← same_event) p
ExtendsBy-at (x ∷ post) pre e (next d p k) h = ExtendsBy-at post pre e k cc

-- On Linux, for every system, setting of `--all` and `--force`, argument list, user and histories of
-- all processes that can be reached, where the lock library keeps its promise: if the history of a
-- process is one at which a run of `rm` goes on to remove a directory, no other process holds the lock
-- of this directory.
pub do_remove-excludes :
    (sys : System) (everything force : Bool) (args : List Text) (t pre post : Trace) (dir : Text)
    (r : Answer (Unit {0})) (s : Histories) (p q : ℕ) (u : User)
    → (do_remove sys (linux_vm sys) everything force args t).1
      ≡ post ++ (acted (remove_all dir) r ∷ (pre ++ t))
    → Reach s
    → s p ≡ pre ++ t
    → q ≢ p
    → held (lock_file sys u dir) (s q) ≡ 0
do_remove-excludes sys everything force args t pre post dir r s p q u run reached now n =
    Reach-IsExclusive reached (lock_file sys u dir) p q n (
      rw now (
        ExtendsBy-at post pre (acted (remove_all dir) r)
          ((remove-IsGuarded sys everything force args).on t tt) run u))
