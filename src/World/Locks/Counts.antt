-- ===== src/World/Locks/Counts.antt =====
-- How an event changes the locks that are held.
use podman_bootc.Base.{
  ◌+◌, ◌&&◌, text_eq, suc, ◌-◌, ◌≤◌, Bool, true, false, ◌≡◌, refl, [], ◌∷◌, Text, inl, inr,
  if◌then◌else◌, arith, ◌⊎◌,
}
use podman_bootc.World.Calls.{try_lock, try_rlock, Test, Answer, Event, acted, tested, Trace}
use podman_bootc.World.Locks.{
  held, held_exclusive, takes, takes_exclusive, gives, count_held, granted, is_exclusive, file_of,
  one_if,
}

-- An exclusive lock is a lock.
exclusive_counts :
    (take take' give : Event → Bool)
    → ((e : Event) → take' e ≡ true → take e ≡ true)
    → (t : Trace) → count_held take' give t ≤ count_held take give t
exclusive_counts take take' give h [] = omega arith
exclusive_counts take take' give h (e ∷ t) =
    by_event (take e) (take' e) (give e) (h e) (exclusive_counts take take' give h t)
  where
    by_event :
        (a b g : Bool)
        → (b ≡ true → a ≡ true)
        → count_held take' give t ≤ count_held take give t
        → (let n = count_held take' give t in if b then suc n else if g then n - 1 else n)
          ≤ (let n = count_held take give t in if a then suc n else if g then n - 1 else n)
    by_event true true g k le = omega (arith, le)
    by_event true false true k le = omega (arith, le)
    by_event true false false k le = omega (arith, le)
    by_event false true g k le = absurd (ground (arith, k refl))
    by_event false false true k le = omega (arith, le)
    by_event false false false k le = le

takes_of_exclusive : (l : Text) (e : Event) → takes_exclusive l e ≡ true → takes l e ≡ true
takes_of_exclusive l (tested (try_lock k) r) h = h
takes_of_exclusive l (tested (try_rlock k) r) h = absurd (ground (arith, h))
takes_of_exclusive l (acted c r) h = absurd cc
takes_of_exclusive l _ h = absurd cc

pub held_exclusive-held : (l : Text) (t : Trace) → held_exclusive l t ≤ held l t
unfolding held held_exclusive
held_exclusive-held l t =
    exclusive_counts (takes l) (takes_exclusive l) (gives l) (takes_of_exclusive l) t

-- A process comes to hold a lock only by taking it.
pub held-new : (l : Text) (e : Event) (t : Trace) → takes l e ≡ false → held l (e ∷ t) ≤ held l t
unfolding held
held-new l e t h = by_event (takes l e) (gives l e) h
  where
    by_event :
        (a g : Bool)
        → a ≡ false
        → (let n = count_held (takes l) (gives l) t in if a then suc n else if g then n - 1 else n)
          ≤ count_held (takes l) (gives l) t
    by_event true g h = absurd (ground (arith, h))
    by_event false true h = omega arith
    by_event false false h = omega arith

pub held_exclusive-new :
    (l : Text) (e : Event) (t : Trace)
    → 1 ≤ held_exclusive l (e ∷ t)
    → (1 ≤ held_exclusive l t) ⊎ (takes_exclusive l e ≡ true)
unfolding held_exclusive
held_exclusive-new l e t h = by_event (takes_exclusive l e) (gives l e) h
  where
    by_event :
        (a g : Bool)
        → 1 ≤ (
            let n = count_held (takes_exclusive l) (gives l) t in
            if a then suc n else if g then n - 1 else n)
        → (1 ≤ count_held (takes_exclusive l) (gives l) t) ⊎ (a ≡ true)
    by_event true g h = inr refl
    by_event false true h = inl (omega (arith, h))
    by_event false false h = inl h

pub held-nil : (l : Text) → held l [] ≡ 0
unfolding held
held-nil l = refl

pub held_exclusive-nil : (l : Text) → held_exclusive l [] ≡ 0
unfolding held_exclusive
held_exclusive-nil l = refl

-- What the answers to a try change.
pub held_exclusive-tested :
    (l : Text) (c : Test) (r : Answer Bool) (t : Trace)
    → held_exclusive l (tested c r ∷ t)
      ≡ held_exclusive l t + one_if (granted r && (is_exclusive c && text_eq (file_of c) l))
unfolding held_exclusive
held_exclusive-tested l c r t = ground arith
