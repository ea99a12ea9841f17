-- ===== src/Go/Errors.antt =====
-- Go's error values, as the code builds them with `errors.New` and `fmt.Errorf` and takes them
-- apart with `errors.Is` and `errors.As`; and the result of a call, which may also panic.
use podman_bootc.Base.{ℕ, Bool, true, false, ◌++◌, Text, lit, ◌==◌}
use podman_bootc.Base.Int.{ℤ}

-- What the code can learn of an error that a library returned. A `libvirt.Error` holds a code, an
-- `exec.ExitError` the exit status.
pub data Cause : Type 0 where
  not_exist : Cause
  exit_error : ℤ → Cause
  libvirt_error : ℕ → Cause
  incompatible_machine_config vm_does_not_exist vm_in_use other : Cause

-- `wrap p e` is `fmt.Errorf("p: %w", e)`; the text of an error is its `Error()`.
pub data Error : Type 0 where
  leaf : Cause → Text → Error
  wrap : Text → Error → Error

-- `errors.New` and `fmt.Errorf` with no `%w`.
abbrev pub new_error : Text → Error
new_error t = leaf other t

-- `err.Error()`.
pub message : Error → Text
message (leaf c t) = t
message (wrap p e) = p ++ (lit ": " ++ message e)

-- The error at the bottom of the chain that `errors.Unwrap` walks down.
abbrev pub cause : Error → Cause
cause (leaf c t) = c
cause (wrap p e) = cause e

-- `errors.Is(err, os.ErrNotExist)`.
pub is_not_exist : Error → Bool
is_not_exist e = elim (cause e) [ not_exist ↦ true | _ ↦ false ]

-- `errors.As(err, &exitError)` and `exitError.ExitCode()`.
abbrev pub exit_status_of : Cause → ℤ → ℤ
exit_status_of (exit_error s) d = s
exit_status_of _ d = d

pub is_exit_error : Error → Bool
is_exit_error e = elim (cause e) [ exit_error s ↦ true | _ ↦ false ]

-- `errors.As(err, &libvirt.Error{…})`: the fields of the target are not compared.
pub is_libvirt_error : Error → Bool
is_libvirt_error e = elim (cause e) [ libvirt_error c ↦ true | _ ↦ false ]

-- `errors.Is(err, libvirt.ErrorNumber)`: the code is compared.
abbrev pub has_libvirt_code : Cause → ℕ → Bool
has_libvirt_code (libvirt_error c) n = c == n
has_libvirt_code _ n = false

-- The result of a call. A panic passes every handler but runs the deferred calls.
pub data Result {ℓ} (A : Type ℓ) : Type ℓ where
  ok : A → Result A
  err : Error → Result A
  panic : Result A

-- A chain of pure calls that may fail.
infixl 5 ◌>>=◌
abbrev pub ◌>>=◌ {ℓ κ} : {A : Type ℓ} {B : Type κ} → Result A → (A → Result B) → Result B
ok a >>= f = f a
err e >>= f = err e
panic >>= f = panic

pub is_ok {ℓ} : {A : Type ℓ} → Result A → Bool
is_ok (ok a) = true
is_ok _ = false
