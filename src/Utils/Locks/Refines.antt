-- ===== src/Utils/Locks/Refines.antt =====
-- pkg/utils/locks.go: `TryLock`, and a lock of readers and writers among processes.
use podman_bootc.Base.{
  ℕ, ◌≤◌, Bool, true, false, ◌≡◌, refl, sym, ◌∙◌, ◌≢◌, ◌∷◌, Text, text_eq_refl, ltb, ◌==◌, ==_iff,
  Bool-cases, if◌then◌else◌, arith, inl, inr,
}
use podman_bootc.Go.Errors.{Result, ok, err, panic}
use podman_bootc.Utils.Locks.{AccessMode, exclusive, shared, CacheLock, try_lock_in}
use podman_bootc.World.Calls.{
  System, Test, Answer, done, failed, tested, try_lock, try_rlock, Trace,
}
use podman_bootc.World.Exec.{test, given}
use podman_bootc.World.Interleaved.{Histories, IsAllowed}
use podman_bootc.World.Locks.{held, held_exclusive, held-tested, granted, held_exclusive-granted}
use podman_bootc.World.Locks.Counts.{held_exclusive-held, held_exclusive-tested}

-- The specification: what each process has of the lock.
pub data Holding : Type 0 where
  free reading writing : Holding

abbrev pub Holdings : Type 0
Holdings = ℕ → Holding

abbrev pub wanted : AccessMode → Holding
wanted exclusive = writing
wanted shared = reading

-- When a process may have the lock: no other has it, or no other writes.
abbrev pub MayHave : Holdings → ℕ → AccessMode → Type 0
MayHave m p exclusive = (q : ℕ) → q ≢ p → m q ≡ free
MayHave m p shared = (q : ℕ) → q ≢ p → m q ≢ writing

abbrev pub KeepsOthers : Holdings → Holdings → ℕ → Type 0
KeepsOthers m m' p = (q : ℕ) → q ≢ p → m' q ≡ m q

-- A try of a process, by its result: it has what it wants if it may; or nothing changes.
abbrev pub Tried : Holdings → Holdings → ℕ → AccessMode → Result Bool → Type 0
Tried m m' p mode (ok true) = MayHave m p mode × (m' p ≡ wanted mode)
Tried m m' p mode (ok false) = m' p ≡ m p
Tried m m' p mode (err e) = m' p ≡ m p
Tried m m' p mode panic = ⊥

-- What the processes have of a lock file, by their histories.
abbrev pub holding : ℕ → ℕ → Holding
holding e h = if ltb 0 e then writing else if ltb 0 h then reading else free

abbrev pub view : Text → Histories → Holdings
view l s p = holding (held_exclusive l (s p)) (held l (s p))

-- The histories after an operation of one process.
abbrev pub with_history : Histories → ℕ → Trace → Histories
with_history s p t q = if p == q then t else s q

free_flags :
    (a b : Bool)
    → (if a then writing else if b then reading else free) ≡ free
    → (a ≡ false) × (b ≡ false)
free_flags true b h = absurd cc
free_flags false true h = absurd cc
free_flags false false h = (refl, refl)

-- A process has nothing of the lock exactly if it holds no lock.
holding-free : (e h : ℕ) → holding e h ≡ free → (e ≡ 0) × (h ≡ 0)
holding-free e h k =
    let (a, b) = free_flags (ltb 0 e) (ltb 0 h) k in (ground (arith, a), ground (arith, b))

holding-none : (e h : ℕ) → e ≤ h → h ≡ 0 → holding e h ≡ free
holding-none e h le k = ground (arith, le, k)

holding-writing : (e h : ℕ) → e ≡ 0 → holding e h ≢ writing
holding-writing e h k w = by_flag (ltb 0 h) (rw k at w)
  where
    by_flag : (b : Bool) → (if b then reading else free) ≡ writing → ⊥
    by_flag true w = cc
    by_flag false w = cc

with_own : (s : Histories) (p : ℕ) (t : Trace) → with_history s p t p ≡ t
with_own s p t = rw ((==_iff p p).1 refl) refl

keeps_others :
    (l : Text) (s : Histories) (p : ℕ) (t : Trace)
    → KeepsOthers (view l s) (view l (with_history s p t)) p
keeps_others l s p t q n = elim (Bool-cases (p == q)) [
  | inl e ↦ absurd (n (sym ((==_iff p q).0 e)))
  | inr e ↦ rw e refl
]

holding_writing : (e h : ℕ) → 1 ≤ e → holding e h ≡ writing
holding_writing e h k = ground (arith, k)

holding_reading : (e h : ℕ) → e ≡ 0 → 1 ≤ h → holding e h ≡ reading
holding_reading e h k j = ground (arith, k, j)

holding-same : (e h e' h' : ℕ) → e' ≡ e → h' ≡ h → holding e' h' ≡ holding e h
holding-same e h e' h' a b = rw (a, b) refl

-- What the processes have after an answer to a try of one of them.
abbrev view_tried : Text → Histories → ℕ → Test → Answer Bool → Holdings
view_tried l s p c r = view l (with_history s p (tested c r ∷ s p))

module _ (l : Text) (s : Histories) (p : ℕ) where
  view_own : (t : Trace) → view l (with_history s p t) p ≡ holding (held_exclusive l t) (held l t)
  view_own t = rw (with_own s p t) refl

  refused : (c : Test) (r : Answer Bool) → granted r ≡ false → view_tried l s p c r p ≡ view l s p
  refused c r h =
      view_own (tested c r ∷ s p)
      ∙ holding-same (held_exclusive l (s p)) (held l (s p)) (held_exclusive l (tested c r ∷ s p))
          (held l (tested c r ∷ s p)) (ground (arith, held_exclusive-tested l c r (s p), h))
          (ground (arith, held-tested l c r (s p), h))

  Tried-exclusive :
      (r : Answer Bool)
      → IsAllowed s p (tested (try_lock l) r)
      → Tried (view l s) (view_tried l s p (try_lock l) r) p exclusive (given r)
  Tried-exclusive (done true) a = (
    λ q n.
        holding-none (held_exclusive l (s q)) (held l (s q)) (held_exclusive-held l (s q)) (a q n),
    view_own _
        ∙ holding_writing (held_exclusive l (tested (try_lock l) (done true) ∷ s p))
            (held l (tested (try_lock l) (done true) ∷ s p))
            (omega (arith, held_exclusive-granted l (s p))),
  )
  Tried-exclusive (done false) a = refused (try_lock l) (done false) refl
  Tried-exclusive (failed x) a = refused (try_lock l) (failed x) refl

  Tried-shared :
      (r : Answer Bool)
      → view l s p ≡ free
      → IsAllowed s p (tested (try_rlock l) r)
      → Tried (view l s) (view_tried l s p (try_rlock l) r) p shared (given r)
  Tried-shared (done true) f a = (
    λ q n. holding-writing (held_exclusive l (s q)) (held l (s q)) (a q n),
    let u = tested (try_rlock l) (done true) ∷ s p in
        view_own u
        ∙ holding_reading (held_exclusive l u) (held l u)
            (held_exclusive-tested l (try_rlock l) (done true) (s p)
              ∙ omega (arith, (holding-free (held_exclusive l (s p)) (held l (s p)) f).0))
            (ground (arith, held-tested l (try_rlock l) (done true) (s p), text_eq_refl l)),
  )
  Tried-shared (done false) f a = refused (try_rlock l) (done false) refl
  Tried-shared (failed x) f a = refused (try_rlock l) (failed x) refl

-- For every system, lock, mode, histories of all processes and process that has nothing of the lock,
-- where the lock library answers true only where it may: `TryLock` leaves what the other processes have
-- of the lock, and if it returns true, the process has the lock as it wanted, and no other process had
-- it, or for a shared lock none had it exclusively; if it returns false or an error, nothing changed.
pub try_lock_in-refines :
    (sys : System) (lock : CacheLock) (mode : AccessMode) (s : Histories) (p : ℕ)
    → view lock.path s p ≡ free
    → ((c : Test) → IsAllowed s p (tested c (sys.test (s p) c)))
    → let r = try_lock_in sys lock mode (s p) in
      let m = view lock.path s in
      let m' = view lock.path (with_history s p r.1) in KeepsOthers m m' p × Tried m m' p mode r.0
unfolding try_lock_in test
try_lock_in-refines sys lock exclusive s p f allowed = (
  keeps_others lock.path s p _,
  Tried-exclusive lock.path s p (sys.test (s p) (try_lock lock.path)) (allowed _),
)
try_lock_in-refines sys lock shared s p f allowed = (
  keeps_others lock.path s p _,
  Tried-shared lock.path s p (sys.test (s p) (try_rlock lock.path)) f (allowed _),
)
