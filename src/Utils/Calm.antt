-- ===== src/Utils/Calm.antt =====
-- pkg/utils/locks.go and pkg/utils/podman.go: panics.
use podman_bootc.Base.{
  Bool, true, false, not, Option, none, some, List, [], ◌∷◌, Text, if◌then◌else◌,
}
use podman_bootc.Go.Errors.{Result, ok, err, panic}
use podman_bootc.Go.Errors
use podman_bootc.Utils.Locks.{CacheLock, AccessMode, exclusive, shared, try_lock_in}
use podman_bootc.Utils.Machine.{
  get_machine_context, get_machine_info, get_pv4_machine_info, get_pv5_machine_info,
  info_of_inspect, find_default, default_machine_name, named, not_running,
}
use podman_bootc.World.Calls.{System, MachineInspect, MachineList}
use podman_bootc.World.Calm.{Calm, IsCalm, Calm-pure, Calm-fail, Calm-lift, calm_rules}
use podman_bootc.World.Exec.{lift}

find_default-IsCalm : (l : List MachineList) (o : Option Text) → IsCalm (find_default l o)
unfolding find_default
find_default-IsCalm [] o = tt
find_default-IsCalm (m ∷ l) o = by_flag _ _ (find_default-IsCalm l _)
  where
    by_flag :
        (b : Bool) (r : Result (Option Text)) → IsCalm r → IsCalm (if b then err not_running else r)
    by_flag true r h = tt
    by_flag false r h = h

default_machine_name-IsCalm : (l : List MachineList) → IsCalm (default_machine_name l)
unfolding default_machine_name
default_machine_name-IsCalm [] = tt
default_machine_name-IsCalm (m ∷ []) = by_state m.running
  where
    by_state : (b : Bool) → IsCalm (if not b then err not_running else ok m.name)
    by_state true = tt
    by_state false = tt
default_machine_name-IsCalm (m ∷ n ∷ l) = by_result _ (find_default-IsCalm (m ∷ n ∷ l) none)
  where
    by_result : (r : Result (Option Text)) → IsCalm r → IsCalm (Errors.◌>>=◌ r named)
    by_result (ok none) h = tt
    by_result (ok (some name)) h = tt
    by_result (err e) h = tt
    by_result panic h = h

module _ (sys : System) where
  pub try_lock_in-Calm : (lock : CacheLock) (mode : AccessMode) → Calm (try_lock_in sys lock mode)
  unfolding try_lock_in
  try_lock_in-Calm lock exclusive = search calm_rules
  try_lock_in-Calm lock shared = search calm_rules

  info_of_inspect-Calm : (l : List MachineInspect) → Calm (info_of_inspect sys l)
  unfolding info_of_inspect
  info_of_inspect-Calm [] = Calm-fail _
  info_of_inspect-Calm (m ∷ l) = Calm-pure _

  chosen-Calm : (l : List MachineList) → Calm (lift (default_machine_name l))
  chosen-Calm l = Calm-lift _ (default_machine_name-IsCalm l)

  -- `GetMachineContext` does not panic.
  pub get_machine_context-Calm : Calm (get_machine_context sys)
  unfolding get_machine_context get_machine_info get_pv4_machine_info get_pv5_machine_info
  get_machine_context-Calm = search (calm_rules, info_of_inspect-Calm, chosen-Calm) depth 24
