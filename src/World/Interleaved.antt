-- ===== src/World/Interleaved.antt =====
-- Several processes that run side by side: each has its own history, and a step adds one event to one
-- of them. The lock library is taken at its word: a file is locked exclusively only while no other
-- process holds it, and shared only while no other process holds it exclusively.
use podman_bootc.Base.{
  ℕ, ◌≤◌, true, false, ◌≡◌, refl, sym, ◌≢◌, [], ◌∷◌, Text, text_eq_iff, ◌==◌, ==_iff, Bool-cases,
  inl, inr, if◌then◌else◌, arith,
}
use podman_bootc.World.Calls.{done, failed, Test, try_lock, try_rlock, Event, acted, tested, Trace}
use podman_bootc.World.Locks.Counts.{held-nil, held_exclusive-held, held-new, held_exclusive-new}
use podman_bootc.World.Locks.{held, held_exclusive, takes, takes_exclusive}

-- The histories of all processes, and the same after one more event of one process.
abbrev pub Histories : Type 0
Histories = ℕ → Trace

abbrev pub after : Histories → ℕ → Event → Histories
after s p e q = if p == q then e ∷ s q else s q

abbrev AllowedTest : Histories → ℕ → Test → Type 0
AllowedTest s p (try_lock l) = (q : ℕ) → q ≢ p → held l (s q) ≡ 0
AllowedTest s p (try_rlock l) = (q : ℕ) → q ≢ p → held_exclusive l (s q) ≡ 0

-- What the lock library answers true to.
abbrev pub IsAllowed : Histories → ℕ → Event → Type 0
IsAllowed s p (tested c (done true)) = AllowedTest s p c
IsAllowed s p _ = Unit

pub data Step (s : Histories) : Histories → Type 0 where
  step : (p : ℕ) (e : Event) → IsAllowed s p e → Step s (after s p e)

-- What is reached from processes that have done nothing.
pub data Reach : Histories → Type 0 where
  begin : Reach (λ p. [])
  go : {s s' : Histories} → Reach s → Step s s' → Reach s'

taken_exclusive :
    (s : Histories) (l : Text) (p q : ℕ) (e : Event)
    → takes_exclusive l e ≡ true
    → IsAllowed s p e
    → q ≢ p
    → held l (s q) ≡ 0
taken_exclusive s l p q (tested (try_lock k) (done true)) h a n =
    let same : k ≡ l = (text_eq_iff k l).0 h in rw (← same) (a q n)
taken_exclusive s l p q (tested (try_lock k) (done false)) h a n = absurd cc
taken_exclusive s l p q (tested (try_lock k) (failed x)) h a n = absurd cc
taken_exclusive s l p q (tested (try_rlock k) r) h a n = absurd (ground (arith, h))
taken_exclusive s l p q (acted c r) h a n = absurd cc
taken_exclusive s l p q _ h a n = absurd cc

none_left : {a b : ℕ} → a ≤ b → b ≡ 0 → a ≡ 0
none_left h k = omega (arith, h, k)

taken :
    (s : Histories) (l : Text) (p q : ℕ) (e : Event)
    → takes l e ≡ true
    → IsAllowed s q e
    → p ≢ q
    → held_exclusive l (s p) ≡ 0
taken s l p q (tested (try_lock k) (done true)) h a n =
    let same : k ≡ l = (text_eq_iff k l).0 h in
    none_left (held_exclusive-held l (s p)) (rw (← same) (a p n))
taken s l p q (tested (try_rlock k) (done true)) h a n =
    let same : k ≡ l = (text_eq_iff k l).0 h in rw (← same) (a p n)
taken s l p q (tested c (done false)) h a n = absurd cc
taken s l p q (tested c (failed x)) h a n = absurd cc
taken s l p q (acted c r) h a n = absurd cc
taken s l p q _ h a n = absurd cc

-- No process holds a lock that another holds exclusively.
abbrev pub IsExclusive : Histories → Type 0
IsExclusive s = (l : Text) (p q : ℕ) → q ≢ p → 1 ≤ held_exclusive l (s p) → held l (s q) ≡ 0

after_own : (s : Histories) (p : ℕ) (e : Event) → after s p e p ≡ e ∷ s p
after_own s p e = rw ((==_iff p p).1 refl) refl

pub after_other : (s : Histories) (p q : ℕ) (e : Event) → (p == q) ≡ false → after s p e q ≡ s q
after_other s p q e h = rw h refl

pub not_same : (p q : ℕ) → q ≢ p → (p == q) ≡ false
not_same p q n = elim (Bool-cases (p == q)) [
  | inl e ↦ absurd (n (sym ((==_iff p q).0 e)))
  | inr e ↦ e
]

module _ (s : Histories) (e : Event) (h : IsExclusive s) (l : Text) (p q : ℕ) (n : q ≢ p) where
  -- The step of the process that holds the lock exclusively.
  own_step : IsAllowed s p e → 1 ≤ held_exclusive l (e ∷ s p) → held l (s q) ≡ 0
  own_step a k = elim (held_exclusive-new l e (s p) k) [
    | inl before ↦ h l p q n before
    | inr now ↦ taken_exclusive s l p q e now a n
  ]

  -- A step of a process that does not.
  other_step : IsAllowed s q e → 1 ≤ held_exclusive l (s p) → held l (e ∷ s q) ≡ 0
  other_step a k = elim (Bool-cases (takes l e)) [
    | inl now ↦ absurd (omega (arith, k, taken s l p q e now a (λ same. n (sym same))))
    | inr never ↦ none_left (held-new l e (s q) never) (h l p q n k)
  ]

step-IsExclusive :
    (s : Histories) (r : ℕ) (e : Event)
    → IsAllowed s r e
    → IsExclusive s
    → IsExclusive (after s r e)
step-IsExclusive s r e a h l p q n k = elim (Bool-cases (r == p)) [
  | inl own ↦
      let same : r ≡ p = (==_iff r p).0 own in
      rw (same, after_other s p q e (not_same p q n))
        (own_step s e h l p q n (rw same at a) (rw (same, after_own s p e) at k))
  | inr other ↦ elim (Bool-cases (r == q)) [
    | inl its ↦
        let same : r ≡ q = (==_iff r q).0 its in
        rw (same, after_own s q e)
          (other_step s e h l p q n (rw same at a) (rw (after_other s r p e other) at k))
    | inr neither ↦
        rw (after_other s r q e neither) (h l p q n (rw (after_other s r p e other) at k))
  ]
]

nothing_held : IsExclusive (λ p. [])
nothing_held l p q n k = held-nil l

-- In each reachable state, no process holds a lock that another holds exclusively.
pub Reach-IsExclusive : {s : Histories} → Reach s → IsExclusive s
Reach-IsExclusive begin = nothing_held
Reach-IsExclusive (go r (step p e a)) = step-IsExclusive _ p e a (Reach-IsExclusive r)
