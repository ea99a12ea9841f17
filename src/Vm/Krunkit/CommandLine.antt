-- ===== src/Vm/Krunkit/CommandLine.antt =====
-- pkg/vm/krunkit.go: the arguments of krunkit, read back by the grammar of its options.
use mathlib.Core.List.{append-nil, append_assoc}
use podman_bootc.Base.{
  ◌≡◌, refl, ◌∙◌, List, [], ◌∷◌, ◌++◌, Text, lit, text_eq, Option, none, some, if◌then◌else◌,
}
use podman_bootc.Base.Int.{ℤ, pos}
use podman_bootc.Go.Decimal.{format_int, parse_int}
use podman_bootc.Go.Decimal.RoundTrip.{IsInt64, parse_int-format_int}
use podman_bootc.Vm.Krunkit.{KrunkitCmdLine, flagged, as_slice, new_krunkit_cmd_line}

-- The options of krunkit that have a value: a number of CPUs, an amount of memory, a device, which may
-- be given several times, and an OEM string, likewise.
pub data Flag : Type 0 where
  cpus_flag memory_flag device_flag oem_flag unknown_flag : Flag

abbrev flag_of : Text → Flag
flag_of s =
    if text_eq s (lit "--cpus")
    then cpus_flag
    else if text_eq s (lit "--memory")
    then memory_flag
    else if text_eq s (lit "--device")
    then device_flag
    else if text_eq s (lit "--oem-string")
    then oem_flag
    else unknown_flag

abbrev with_cpus : KrunkitCmdLine → Option ℤ → Option KrunkitCmdLine
with_cpus kc none = none
with_cpus kc (some n) = some (record kc { cpus = n })

abbrev with_memory : KrunkitCmdLine → Option ℤ → Option KrunkitCmdLine
with_memory kc none = none
with_memory kc (some n) = some (record kc { memory = n })

-- What one option adds to what the options before it say.
abbrev with_option : KrunkitCmdLine → Text → Flag → Option KrunkitCmdLine
with_option kc value cpus_flag = with_cpus kc (parse_int value)
with_option kc value memory_flag = with_memory kc (parse_int value)
with_option kc value device_flag = some (record kc { devices = kc.devices ++ (value ∷ []) })
with_option kc value oem_flag = some (record kc { oem_strings = kc.oem_strings ++ (value ∷ []) })
with_option kc value unknown_flag = none

-- The arguments read from left to right; `none` for an option that krunkit does not have, a number that
-- is none, or an option with no value.
pub parse_options : List Text → Option KrunkitCmdLine → Option KrunkitCmdLine
parse_options [] o = o
parse_options (flag ∷ []) o = none
parse_options (flag ∷ value ∷ args) none = none
parse_options (flag ∷ value ∷ args) (some kc) =
    parse_options args (with_option kc value (flag_of flag))

device_flag_lem : flag_of (lit "--device") ≡ device_flag
unfolding text_eq lit
device_flag_lem = refl

oem_flag_lem : flag_of (lit "--oem-string") ≡ oem_flag
unfolding text_eq lit
oem_flag_lem = refl

parse_devices :
    (values rest : List Text) (kc : KrunkitCmdLine)
    → parse_options (flagged (lit "--device") values ++ rest) (some kc)
      ≡ parse_options rest (some (record kc { devices = kc.devices ++ values }))
unfolding parse_options flagged
parse_devices [] rest kc = rw (append-nil kc.devices) refl
parse_devices (v ∷ values) rest kc = rw (device_flag_lem) (
    parse_devices values rest (record kc { devices = kc.devices ++ (v ∷ []) })
    ∙ rw (append_assoc kc.devices (v ∷ []) values) refl)

parse_oem_strings :
    (values : List Text) (kc : KrunkitCmdLine)
    → parse_options (flagged (lit "--oem-string") values) (some kc)
      ≡ some (record kc { oem_strings = kc.oem_strings ++ values })
unfolding parse_options flagged
parse_oem_strings [] kc = rw (append-nil kc.oem_strings) refl
parse_oem_strings (v ∷ values) kc = rw (oem_flag_lem) (
    parse_oem_strings values (record kc { oem_strings = kc.oem_strings ++ (v ∷ []) })
    ∙ rw (append_assoc kc.oem_strings (v ∷ []) values) refl)

cpus_flag_lem : flag_of (lit "--cpus") ≡ cpus_flag
unfolding text_eq lit
cpus_flag_lem = refl

memory_flag_lem : flag_of (lit "--memory") ≡ memory_flag
unfolding text_eq lit
memory_flag_lem = refl

parse_cpus :
    (cpus : ℤ) (args : List Text) (kc : KrunkitCmdLine)
    → IsInt64 cpus
    → parse_options (lit "--cpus" ∷ format_int cpus ∷ args) (some kc)
      ≡ parse_options args (some (record kc { cpus = cpus }))
unfolding parse_options
parse_cpus cpus args kc h = rw (cpus_flag_lem, parse_int-format_int cpus h) refl

parse_memory :
    (memory : ℤ) (args : List Text) (kc : KrunkitCmdLine)
    → IsInt64 memory
    → parse_options (lit "--memory" ∷ format_int memory ∷ args) (some kc)
      ≡ parse_options args (some (record kc { memory = memory }))
unfolding parse_options
parse_memory memory args kc h = rw (memory_flag_lem, parse_int-format_int memory h) refl

-- For every command line whose numbers of CPUs and of memory are int64 values: the arguments that
-- `asSlice` makes of it, read by the grammar of krunkit's options, give the numbers, the devices
-- and the OEM strings back, each in their order.
pub parse_options-as_slice :
    (kc : KrunkitCmdLine)
    → IsInt64 kc.cpus
    → IsInt64 kc.memory
    → parse_options (as_slice kc) (some (new_krunkit_cmd_line (pos 0) (pos 0))) ≡ some kc
unfolding as_slice
parse_options-as_slice kc h k =
    parse_cpus kc.cpus _ _ h
    ∙ (parse_memory kc.memory _ _ k
        ∙ (parse_devices kc.devices _ _ ∙ parse_oem_strings kc.oem_strings _))
