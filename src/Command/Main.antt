-- ===== src/Command/Main.antt =====
-- runCommand of main.go.
pub mod Correct
use git_kmssign.Base.{Bool, List, [], ◌∷◌, ◌++◌, ◌⊎◌, inl, inr, if◌then◌else◌}
use git_kmssign.Base.Int.{ℤ}
use git_kmssign.Base.Text.{Text, codes}
use git_kmssign.Cert.{Identity}
use git_kmssign.Status.Events.{printed}
use git_kmssign.Command.{Cms, System}
use git_kmssign.Command.ListKeys.{Printer, command_list_keys}
use git_kmssign.Command.Options.{
  Options, Action, run_sign, run_verify, run_list_keys, include_certs_value, select_action,
}
use git_kmssign.Command.Run.{
  CommandError, bad_include_certs, cannot_open_store, cannot_list_identities, Run, failed, ◌>>=◌,
  ◌>>◌, write, or_fail,
}
use git_kmssign.Command.Sign.{command_sign}
use git_kmssign.Command.Verify.{command_verify}

-- The texts of getopt.Usage and of the version.
pub record Banner : Type 0 where
  pub usage : Text
  pub version_string : Text

module _ (sys : System) (cms : Cms) (printer : Printer) where
  pub run_action : List Identity → Options → Action → Run (Unit {0})
  run_action idents o run_sign = command_sign sys cms idents o
  run_action idents o run_verify = command_verify sys cms idents o
  run_action idents o run_list_keys = write (command_list_keys sys.sha1 printer idents)

  pub run_selected : List Identity → Options → CommandError ⊎ Action → Run (Unit {0})
  run_selected idents o (inl e) = failed [] e
  run_selected idents o (inr action) = run_action idents o action

  -- What follows the help and version flags.
  pub run_with_store : Options → Run (Unit {0})
  run_with_store o = do
    include ← or_fail (include_certs_value o sys.include_certs_env) bad_include_certs
    store ← or_fail sys.store cannot_open_store
    idents ← or_fail store cannot_list_identities
    let o' = record o { include_certs = include }
    run_selected idents o' (select_action o')

  pub run_command : Banner → Options → Run (Unit {0})
  run_command banner o =
      if o.help
      then write (printed banner.usage ∷ [])
      else if o.version
      then write (printed (banner.version_string ++ codes "\n") ∷ [])
      else run_with_store o
