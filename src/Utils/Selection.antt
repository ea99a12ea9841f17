-- ===== src/Utils/Selection.antt =====
-- pkg/utils/podman.go: the choice of a machine in `getPv4MachineInfo`, by the flags of the machines.
use podman_bootc.Base.{
  ◌≤◌, Bool, true, false, not, ◌&&◌, ◌≡◌, refl, ap, ◌∙◌, List, [], ◌∷◌, Text, Option, none, some,
  ◌⊎◌, inl, inr, length, Member, here, there, arith, if◌then◌else◌, All,
}
use podman_bootc.Go.Errors.{Error, Result, ok, err, panic}
use podman_bootc.Go.Errors
use podman_bootc.Utils.Machine.{find_default, default_machine_name, named, not_running}
use podman_bootc.World.Calls.{MachineList}

-- A running default machine of the list, with the name.
pub record IsDefault (machines : List MachineList) (name' : Text) : Type 0 where
  pub machine : MachineList
  pub is_listed : Member machine machines
  pub is_running : machine.running ≡ true
  pub is_default : machine.default ≡ true
  pub has_name : machine.name ≡ name'

IsDefault-there :
    {machines : List MachineList} {name' : Text} (m : MachineList)
    → IsDefault machines name'
    → IsDefault (m ∷ machines) name'
IsDefault-there m h = record {
  machine = h.machine;
  is_listed = there h.is_listed;
  is_running = h.is_running;
  is_default = h.is_default;
  has_name = h.has_name;
}

-- One machine, by its flags.
by_flags :
    (x : Error) (d r : Bool) (own : Text) (found : Option Text) (machines : List MachineList)
    (name' : Text)
    → ((f : Option Text)
        → find_default machines f ≡ ok (some name')
        → (f ≡ some name') ⊎ IsDefault machines name')
    → (if d && not r then err x else find_default machines (if d then some own else found))
      ≡ ok (some name')
    → (found ≡ some name') ⊎ (((d ≡ true) × (r ≡ true) × (own ≡ name')) ⊎ IsDefault machines name')
by_flags x true true own found machines name' again e = elim (again (some own) e) [
  | inl same ↦ inr (inl (refl, refl, cc))
  | inr h ↦ inr (inr h)
]
by_flags x true false own found machines name' again e = absurd cc
by_flags x false r own found machines name' again e = elim (again found e) [
  | inl same ↦ inl same
  | inr h ↦ inr (inr h)
]

find_default-found :
    (machines : List MachineList) (found : Option Text) (name' : Text)
    → find_default machines found ≡ ok (some name')
    → (found ≡ some name') ⊎ IsDefault machines name'
unfolding find_default
find_default-found [] found name' e = inl cc
find_default-found (m ∷ machines) found name' e =
    elim (by_flags _ m.default m.running m.name found machines name'
      (λ f. find_default-found machines f name') e) [
        | inl same ↦ inl same
        | inr h ↦ elim h [
          | inl (d, r, n) ↦ inr (record {
            machine = m;
            is_listed = here;
            is_running = r;
            is_default = d;
            has_name = n;
          })
          | inr k ↦ inr (IsDefault-there m k)
        ]
      ]

named-some :
    (r : Result (Option Text)) (name' : Text)
    → (Errors.◌>>=◌ r named ≡ ok name')
    → r ≡ ok (some name')
named-some (ok (some n)) name' e = cc
named-some (ok none) name' e = absurd cc
named-some (err x) name' e = absurd cc
named-some panic name' e = absurd cc

not_none : (name' : Text) → (none ≡ some name') → ⊥
not_none name' e = cc

only_running :
    (m : MachineList) (name' : Text)
    → default_machine_name (m ∷ []) ≡ ok name'
    → (m.running ≡ true) × (m.name ≡ name')
unfolding default_machine_name
only_running m name' e = by_running m.running m.name e
  where
    by_running :
        (r : Bool) (own : Text)
        → (if not r then err not_running else ok own) ≡ ok name'
        → (r ≡ true) × (own ≡ name')
    by_running true own e = (refl, cc)
    by_running false own e = absurd cc

-- For every list of machines and every name: if the code chooses this name, it is that of a machine of
-- the list that runs, and the machine is the only one of the list or is marked as the default.
pub default_machine_name-runs :
    (machines : List MachineList) (name' : Text)
    → default_machine_name machines ≡ ok name'
    → (m : MachineList) × Member m machines
      × (m.running ≡ true)
      × (m.name ≡ name')
      × ((length machines ≡ 1) ⊎ (m.default ≡ true))
unfolding default_machine_name
default_machine_name-runs [] name' e = absurd cc
default_machine_name-runs (m ∷ []) name' e =
    let (r, n) = only_running m name' e in (m, here, r, n, inl refl)
default_machine_name-runs (m ∷ n ∷ machines) name' e =
    elim (find_default-found (m ∷ n ∷ machines) none name' (named-some _ name' e)) [
      | inl absent ↦ absurd (not_none name' absent)
      | inr h ↦ (h.machine, h.is_listed, h.is_running, h.has_name, inr h.is_default)
    ]

-- A machine that runs if it is the default.
abbrev pub RunsIfDefault : MachineList → Type 0
RunsIfDefault m = m.default ≡ true → m.running ≡ true

step_ok :
    (x : Error) (d r : Bool) (own : Text) (found : Option Text) (machines : List MachineList)
    → (d ≡ true → r ≡ true)
    → (if d && not r then err x else find_default machines (if d then some own else found))
      ≡ find_default machines (if d then some own else found)
step_ok x true true own found machines h = refl
step_ok x true false own found machines h = absurd (ground (arith, h))
step_ok x false r own found machines h = refl

some_if : (d : Bool) (own n : Text) → (k : Text) × ((if d then some own else some n) ≡ some k)
some_if true own n = (own, refl)
some_if false own n = (n, refl)

find_default-some :
    (machines : List MachineList) (n : Text)
    → All RunsIfDefault machines
    → (k : Text) × (find_default machines (some n) ≡ ok (some k))
unfolding find_default
find_default-some [] n runs = (n, refl)
find_default-some (m ∷ machines) n runs =
    let (k, e) = some_if m.default m.name n in
    let (r, e') = find_default-some machines k runs.1 in
    (
      r,
      step_ok _ m.default m.running m.name (some n) machines runs.0
          ∙ (ap (find_default machines) e ∙ e'),
    )

find_default-listed :
    (machines : List MachineList) (found : Option Text) (m : MachineList)
    → All RunsIfDefault machines
    → Member m machines
    → m.default ≡ true
    → (k : Text) × (find_default machines found ≡ ok (some k))
unfolding find_default
find_default-listed [] found m runs k d = elim k [ ]
find_default-listed (n ∷ machines) found m runs here d =
    let (r, e) = find_default-some machines m.name runs.1 in
    (
      r,
      step_ok _ m.default m.running m.name found machines runs.0
          ∙ (ap (find_default machines) (rw d refl) ∙ e),
    )
find_default-listed (n ∷ machines) found m runs (there k) d =
    let (r, e) =
      find_default-listed machines (if n.default then some n.name else found) m runs.1 k d in
    (r, step_ok _ n.default n.running n.name found machines runs.0 ∙ e)

-- For every list of at least two machines in which each default machine runs and there is one: the code
-- chooses a machine.
pub default_machine_name-total :
    (machines : List MachineList) (m : MachineList)
    → 2 ≤ length machines
    → All RunsIfDefault machines
    → Member m machines
    → m.default ≡ true
    → (name' : Text) × (default_machine_name machines ≡ ok name')
unfolding default_machine_name
default_machine_name-total [] m h runs k d = absurd (omega arith)
default_machine_name-total (a ∷ []) m h runs k d = absurd (omega arith)
default_machine_name-total (a ∷ b ∷ machines) m h runs k d =
    let (r, e) = find_default-listed (a ∷ b ∷ machines) none m runs k d in (r, rw e refl)
