-- ===== src/Utils/PidFiles.antt =====
-- pkg/utils/file.go: `WritePidFile` and `ReadPidFile` together.
use mathlib.Core.List.{reverse, reverse_aux, reverse-reverse}
use podman_bootc.Base.{
  ℕ, ◌^◌, ◌<◌, Bool, true, false, ◌≡◌, refl, ap, ◌∙◌, [], ◌∷◌, ◌++◌, Text, lit, Option, none, some,
  All, arith, ◌==◌, if◌then◌else◌,
}
use podman_bootc.Base.Int.{ℤ, pos, ltb_ℤ}
use podman_bootc.Go.Decimal.{format_nat, format_int, parse_int}
use podman_bootc.Go.Decimal.RoundTrip.{IsDigit, format_nat-All, parse_int-format_int}
use podman_bootc.Go.Errors.{ok, new_error}
use podman_bootc.Utils.Files.{trim_left, trim_newlines, parse_pid, read_pid_file, write_pid_file}
use podman_bootc.World.Calls.{
  System, Trace, Answer, acted, measured, done, write_file, stat_size, read_file,
}
use podman_bootc.World.Answers.{given_done}
use podman_bootc.World.Exec.{given, pure, fail, if_nil, act, read, measure, ◌>>=◌}

All-reverse_aux : (s r : Text) → All IsDigit s → All IsDigit r → All IsDigit (reverse_aux s r)
All-reverse_aux [] r h k = k
All-reverse_aux (c ∷ s) r h k = All-reverse_aux s (c ∷ r) h.1 (h.0, k)

not_newline : (c : ℕ) → IsDigit c → (c == 10) ≡ false
not_newline c h = ground arith

trim_left-digits : (s : Text) → All IsDigit s → trim_left s ≡ s
unfolding trim_left
trim_left-digits [] h = refl
trim_left-digits (c ∷ s) h = rw (not_newline c h.0) refl

-- There is nothing to trim of digits.
trim_newlines-digits : (s : Text) → All IsDigit s → trim_newlines s ≡ s
unfolding trim_newlines
trim_newlines-digits s h =
    rw (trim_left-digits s h, trim_left-digits (reverse s) (All-reverse_aux s [] h tt))
      (reverse-reverse s)

pub parse_pid-format_int : (n : ℕ) → n < 2 ^ 63 → parse_pid (format_int (pos n)) ≡ some (pos n)
unfolding parse_pid format_int
parse_pid-format_int n h =
    ap parse_int (trim_newlines-digits (format_nat n) (format_nat-All n))
    ∙ parse_int-format_int (pos n) h

-- A file that was written is there, and holds what was written, until something else happens to it.
abbrev pub KeepsFile : System → Text → Type 0
KeepsFile sys path =
    (content : Text) (t : Trace)
    → let u = acted (write_file path content) (done tt) ∷ t in
      (k : ℕ) × (sys.measure u (stat_size path) ≡ done k)
      × (sys.read (measured (stat_size path) (done k) ∷ u) (read_file path) ≡ done content)

-- What `WritePidFile` has done when it succeeds.
pub write_pid_file_lem :
    (sys : System) (path : Text) (pid : ℤ) (t : Trace)
    → (write_pid_file sys path pid t).0 ≡ ok tt
    → (write_pid_file sys path pid t).1 ≡ acted (write_file path (format_int pid)) (done tt) ∷ t
unfolding write_pid_file fail act
write_pid_file_lem sys path pid t e = by_test (ltb_ℤ pid (pos 1)) e
  where
    by_answer :
        (r : Answer (Unit {0}))
        → given r ≡ ok tt
        → (acted (write_file path (format_int pid)) r ∷ t)
          ≡ (acted (write_file path (format_int pid)) (done tt) ∷ t)
    by_answer r e = rw (given_done r tt e) refl

    by_test :
        (b : Bool)
        → ((if b
              then fail (new_error (lit "invalid negative PID " ++ format_int pid))
              else act sys (write_file path (format_int pid)))
            t).0
          ≡ ok tt
        → ((if b
              then fail (new_error (lit "invalid negative PID " ++ format_int pid))
              else act sys (write_file path (format_int pid)))
            t).1
          ≡ acted (write_file path (format_int pid)) (done tt) ∷ t
    by_test true e = cc
    by_test false e = by_answer (sys.act t (write_file path (format_int pid))) e

abbrev value_or : ℤ → Option ℤ → ℤ
value_or d none = d
value_or d (some i) = i

-- What `ReadPidFile` returns of a content that is a number.
parsed :
    (o : Option ℤ) (i : ℤ) (t : Trace)
    → o ≡ some i
    → (if_nil o (fail (new_error (lit "strconv.ParseInt"))) pure t).0 ≡ ok i
unfolding if_nil pure fail
parsed none i t e = absurd cc
parsed (some j) i t e = ap (λ o. ok (value_or i o)) e

-- For every system that keeps a file, every process id below 2^63 and every history: if `WritePidFile`
-- succeeds, `ReadPidFile` right after it returns this process id.
pub read_pid_file-write_pid_file :
    (sys : System) (path : Text) (pid : ℕ) (t : Trace)
    → KeepsFile sys path
    → pid < 2 ^ 63
    → (write_pid_file sys path (pos pid) t).0 ≡ ok tt
    → (read_pid_file sys path (write_pid_file sys path (pos pid) t).1).0 ≡ ok (pos pid)
unfolding read_pid_file read measure pure ◌>>=◌
read_pid_file-write_pid_file sys path pid t keeps h e =
    let (k, there, content) = keeps (format_int (pos pid)) t in
    rw (write_pid_file_lem sys path (pos pid) t e, there, content)
      (parsed (parse_pid (format_int (pos pid))) (pos pid) _ (parse_pid-format_int pid h))
