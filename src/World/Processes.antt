-- ===== src/World/Processes.antt =====
-- The processes that were started and neither cancelled nor waited for, by their id.
use podman_bootc.Base.{ℕ, ◌+◌, ◌-◌, Bool, false, ◌≡◌, refl, ◌∙◌, List, ◌∷◌, Text, ◌==◌, arith}
use podman_bootc.Go.Errors.{Error}
use podman_bootc.World.Calls.{
  Action, Measure, Answer, done, failed, Event, acted, measured, Trace, wait_command,
  cancel_command, start_command,
}
use podman_bootc.World.Events.{Extends, same, more}
use podman_bootc.World.Locks.{count_held, one_if}

abbrev starts : ℕ → Measure → Answer ℕ → Bool
starts p (start_command path args) (done q) = q == p
starts p _ _ = false

abbrev ends : ℕ → Action → Bool
ends p (wait_command q) = q == p
ends p (cancel_command q) = q == p
ends p _ = false

abbrev starts_process : ℕ → Event → Bool
starts_process p (measured c r) = starts p c r
starts_process p _ = false

abbrev ends_process : ℕ → Event → Bool
ends_process p (acted c r) = ends p c
ends_process p _ = false

-- How often a process with the id `p` was started and neither cancelled nor waited for since. A wait
-- that answers an error has ended all the same: it is the error of the process.
pub running : ℕ → Trace → ℕ
running p t = count_held (starts_process p) (ends_process p) t

-- An event that starts no process and ends none.
abbrev IsNoEnd : Action → Type 0
IsNoEnd (wait_command q) = ⊥
IsNoEnd (cancel_command q) = ⊥
IsNoEnd _ = Unit

abbrev IsNoStart : Measure → Type 0
IsNoStart (start_command path args) = ⊥
IsNoStart _ = Unit

abbrev pub IsAside : Event → Type 0
IsAside (acted c r) = IsNoEnd c
IsAside (measured c r) = IsNoStart c
IsAside _ = Unit

ends_no : (p : ℕ) (c : Action) → IsNoEnd c → ends p c ≡ false
ends_no p (wait_command q) h = elim h [ ]
ends_no p (cancel_command q) h = elim h [ ]
ends_no p _ h = refl

starts_no : (p : ℕ) (c : Measure) (r : Answer ℕ) → IsNoStart c → starts p c r ≡ false
starts_no p (start_command path args) r h = elim h [ ]
starts_no p _ r h = refl

running_aside : (p : ℕ) (e : Event) (t : Trace) → IsAside e → running p (e ∷ t) ≡ running p t
unfolding running
running_aside p (acted c r) t h = rw (ends_no p c h)
running_aside p (measured c r) t h = rw (starts_no p c r h)
running_aside p _ t h = refl

pub running-Extends : (p : ℕ) {t u : Trace} → Extends IsAside t u → running p u ≡ running p t
running-Extends p same = refl
running-Extends p (more e n k) = running_aside p e _ n ∙ running-Extends p k

pub running-start :
    (p : ℕ) (path : Text) (args : List Text) (q : ℕ) (t : Trace)
    → running p (measured (start_command path args) (done q) ∷ t) ≡ running p t + one_if (q == p)
unfolding running
running-start p path args q t = ground arith

pub running-start_failed :
    (p : ℕ) (path : Text) (args : List Text) (e : Error) (t : Trace)
    → running p (measured (start_command path args) (failed e) ∷ t) ≡ running p t
unfolding running
running-start_failed p path args e t = refl

pub running-cancel :
    (p q : ℕ) (r : Answer (Unit {0})) (t : Trace)
    → running p (acted (cancel_command q) r ∷ t) ≡ running p t - one_if (q == p)
unfolding running
running-cancel p q r t = ground arith

pub running-wait :
    (p q : ℕ) (r : Answer (Unit {0})) (t : Trace)
    → running p (acted (wait_command q) r ∷ t) ≡ running p t - one_if (q == p)
unfolding running
running-wait p q r t = ground arith
