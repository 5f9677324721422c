-- ===== src/Status.antt =====
-- status.go: the status lines of --status-fd. A line is one event here, although emitf writes it in
-- three calls; the file that setupStatus opens once is found anew for each line.
pub mod Events
pub mod Signature
use git_kmssign.Base.{
  ℕ, suc, zero, ◌+◌, ◌/◌, ◌%◌, Bool, List, [], ◌∷◌, ◌++◌, ◌==◌, if◌then◌else◌, Option, none, some,
}
use git_kmssign.Base.Int.{ℤ, pos, negsuc}
use git_kmssign.Base.Text.{Text, codes}
use git_kmssign.Status.Events.{Event, status_line, Target, to_stdout, to_stderr, to_descriptor}

pub data Status : Type 0 where
  begin_signing sig_created new_sig good_sig bad_sig err_sig trust_fully : Status

pub keyword : Status → Text
keyword begin_signing = codes "BEGIN_SIGNING"
keyword sig_created = codes "SIG_CREATED"
keyword new_sig = codes "NEWSIG"
keyword good_sig = codes "GOODSIG"
keyword bad_sig = codes "BADSIG"
keyword err_sig = codes "ERRSIG"
keyword trust_fully = codes "TRUST_FULLY"

-- setupStatus: the file that --status-fd names.
pub setup_status : ℤ → Option Target
setup_status (negsuc n) = none
setup_status (pos zero) = none
setup_status (pos (suc zero)) = some to_stdout
setup_status (pos (suc (suc zero))) = some to_stderr
setup_status (pos (suc (suc (suc n)))) = some (to_descriptor (suc (suc (suc n))))

write_line : Option Target → Text → List Event
write_line none line = []
write_line (some target) line = status_line target line ∷ []

abbrev prefix : Text
prefix = codes "[GNUPG:] "

pub emit : ℤ → Status → List Event
emit fd s = write_line (setup_status fd) (prefix ++ (keyword s ++ codes "\n"))

-- `arguments` is the format with its arguments filled in.
pub emitf : ℤ → Status → Text → List Event
emitf fd s arguments =
    write_line (setup_status fd) (prefix ++ (keyword s ++ (codes " " ++ (arguments ++ codes "\n"))))
