-- ===== src/World/Locks.antt =====
-- The locks that this process holds after a history. `flock` counts for one lock object: a try that
-- succeeds takes the lock, `Unlock` gives it back, whatever it answers, and does nothing where none
-- is held.
pub mod Counts
use podman_bootc.Base.{
  ℕ, suc, ◌+◌, ◌-◌, Bool, true, false, ◌&&◌, ◌≡◌, refl, ◌∙◌, [], ◌∷◌, Text, text_eq, text_eq_refl,
  if◌then◌else◌, arith,
}
use podman_bootc.World.Calls.{
  wait_command, Action, Test, Answer, done, Event, acted, tested, unlock, try_lock, try_rlock,
  Trace,
}
use podman_bootc.World.Events.{Extends, same, more}

abbrev pub granted : Answer Bool → Bool
granted (done true) = true
granted _ = false

abbrev pub file_of : Test → Text
file_of (try_lock k) = k
file_of (try_rlock k) = k

abbrev is_exclusive : Test → Bool
is_exclusive (try_lock k) = true
is_exclusive (try_rlock k) = false

abbrev unlocks : Text → Action → Bool
unlocks l (unlock k) = text_eq k l
unlocks l _ = false

-- An event that is a successful try of the lock file `l`, of either kind, or exclusive.
abbrev pub takes : Text → Event → Bool
takes l (tested c r) = granted r && text_eq (file_of c) l
takes l _ = false

abbrev pub takes_exclusive : Text → Event → Bool
takes_exclusive l (tested c r) = granted r && (is_exclusive c && text_eq (file_of c) l)
takes_exclusive l _ = false

abbrev pub gives : Text → Event → Bool
gives l (acted c r) = unlocks l c
gives l _ = false

-- How often a lock is held after a history, where `takes` says which events take it.
abbrev pub count_held : (Event → Bool) → (Event → Bool) → Trace → ℕ
count_held take give [] = 0
count_held take give (e ∷ t) =
    let n = count_held take give t in if take e then suc n else if give e then n - 1 else n

-- The locks, and the exclusive locks, that are held on the file `l`.
pub held : Text → Trace → ℕ
held l t = count_held (takes l) (gives l) t

pub held_exclusive : Text → Trace → ℕ
held_exclusive l t = count_held (takes_exclusive l) (gives l) t

abbrev pub one_if : Bool → ℕ
one_if true = 1
one_if false = 0

pub held-unlock :
    (l p : Text) (r : Answer (Unit {0})) (t : Trace)
    → held l (acted (unlock p) r ∷ t) ≡ held l t - one_if (text_eq p l)
unfolding held
held-unlock l p r t = ground arith

-- A try for the lock takes it exactly if the answer is true.
pub held-tested :
    (l : Text) (c : Test) (r : Answer Bool) (t : Trace)
    → held l (tested c r ∷ t) ≡ held l t + one_if (granted r && text_eq (file_of c) l)
unfolding held
held-tested l c r t = ground arith

pub held_exclusive-granted :
    (l : Text) (t : Trace)
    → held_exclusive l (tested (try_lock l) (done true) ∷ t) ≡ suc (held_exclusive l t)
unfolding held_exclusive
held_exclusive-granted l t = rw (text_eq_refl l)

-- A call that is no `Unlock`, and an event that takes no lock and gives none back.
abbrev pub IsNoUnlock : Action → Type 0
IsNoUnlock (unlock k) = ⊥
IsNoUnlock _ = Unit

abbrev pub IsNeutral : Event → Type 0
IsNeutral (acted c r) = IsNoUnlock c
IsNeutral (tested c r) = ⊥
IsNeutral _ = Unit

unlocks_no : (l : Text) (c : Action) → IsNoUnlock c → unlocks l c ≡ false
unlocks_no l (unlock k) h = elim h [ ]
unlocks_no l (wait_command n) h = refl
unlocks_no l _ h = refl

pub held_neutral : (l : Text) (e : Event) (t : Trace) → IsNeutral e → held l (e ∷ t) ≡ held l t
unfolding held
held_neutral l (acted c r) t h = rw (unlocks_no l c h)
held_neutral l (tested c r) t h = elim h [ ]
held_neutral l _ t h = refl

pub held_exclusive-neutral :
    (l : Text) (e : Event) (t : Trace) → IsNeutral e → held_exclusive l (e ∷ t) ≡ held_exclusive l t
unfolding held_exclusive
held_exclusive-neutral l (acted c r) t h = rw (unlocks_no l c h)
held_exclusive-neutral l (tested c r) t h = elim h [ ]
held_exclusive-neutral l _ t h = refl

pub held-Extends : (l : Text) {t u : Trace} → Extends IsNeutral t u → held l u ≡ held l t
held-Extends l same = refl
held-Extends l (more e n k) = held_neutral l e _ n ∙ held-Extends l k

pub held_exclusive-Extends :
    (l : Text) {t u : Trace} → Extends IsNeutral t u → held_exclusive l u ≡ held_exclusive l t
held_exclusive-Extends l same = refl
held_exclusive-Extends l (more e n k) = held_exclusive-neutral l e _ n ∙ held_exclusive-Extends l k
