-- ===== src/Command/Input.antt =====
-- How command_sign.go and command_verify.go read a file.
use git_kmssign.Base.{◌≡◌, ◌∙◌, ap, [], Option, none, some, Bytes}
use git_kmssign.Base.Text.{Text}
use git_kmssign.Command.{System}
use git_kmssign.Command.Run.{
  CommandError, Run, done, ◌>>=◌, or_fail, or_fail-eq-done, Quiet, quietly_failed, Quiet-bind,
  Quiet-or_fail,
}

-- os.Open(name), then io.Copy.
pub read_file : System → Text → CommandError → CommandError → Run Bytes
read_file sys name cannot_open cannot_read = do
  f ← or_fail (sys.open_file name) cannot_open
  or_fail f cannot_read

read_opened-Quiet {ℓ} :
    {Bad : CommandError → Type ℓ} (file : Option (Option Bytes))
    (cannot_open cannot_read : CommandError)
    → (file ≡ none → Bad cannot_open)
    → (file ≡ some none → Bad cannot_read)
    → Quiet Bad (or_fail file cannot_open >>= λ f. or_fail f cannot_read)
read_opened-Quiet {Bad} file cannot_open cannot_read b b' =
    Quiet-bind (Quiet Bad) (Quiet-or_fail file cannot_open b)
      (λ f e.
        Quiet-or_fail f cannot_read (λ n. b' (or_fail-eq-done file cannot_open e ∙ ap some n)))
      quietly_failed

pub read_file-Quiet {ℓ} :
    {Bad : CommandError → Type ℓ} (sys : System) (name : Text)
    (cannot_open cannot_read : CommandError)
    → (sys.open_file name ≡ none → Bad cannot_open)
    → (sys.open_file name ≡ some none → Bad cannot_read)
    → Quiet Bad (read_file sys name cannot_open cannot_read)
unfolding read_file
read_file-Quiet {Bad} sys name cannot_open cannot_read b b' =
    read_opened-Quiet (sys.open_file name) cannot_open cannot_read b b'

read_opened-eq-done :
    (file : Option (Option Bytes)) (cannot_open cannot_read : CommandError) {bytes : Bytes}
    → (or_fail file cannot_open >>= λ f. or_fail f cannot_read) ≡ done [] bytes
    → file ≡ some (some bytes)
read_opened-eq-done none cannot_open cannot_read h = cc
read_opened-eq-done (some none) cannot_open cannot_read h = cc
read_opened-eq-done (some (some bytes)) cannot_open cannot_read h = cc

pub read_file-eq-done :
    (sys : System) (name : Text) (cannot_open cannot_read : CommandError) {bytes : Bytes}
    → read_file sys name cannot_open cannot_read ≡ done [] bytes
    → sys.open_file name ≡ some (some bytes)
unfolding read_file
read_file-eq-done sys name cannot_open cannot_read h =
    read_opened-eq-done (sys.open_file name) cannot_open cannot_read h
