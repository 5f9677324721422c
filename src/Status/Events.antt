-- ===== src/Status/Events.antt =====
-- What a run writes, in order: status lines (status.go), the output of fmt.Print to the standard
-- output, the messages to `stderr`, and the signature that is written to `stdout`.
use git_kmssign.Base.{ℕ, Bytes}
use git_kmssign.Base.Text.{Text}

pub data Target : Type 0 where
  to_stdout to_stderr : Target
  to_descriptor : ℕ → Target

pub data Event : Type 0 where
  status_line : Target → Text → Event
  printed : Text → Event
  message : Text → Event
  signature_written : Bytes → Event
