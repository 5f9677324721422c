-- ===== src/Command/Main/Correct.antt =====
-- What runCommand of main.go runs.
use git_kmssign.Base.{
  ◌≡◌, refl, ap, ◌∙◌, true, false, List, [], ◌∷◌, ◌++◌, none, some, ◌⊎◌, inl, inr,
}
use git_kmssign.Base.Int.{ℤ}
use git_kmssign.Base.Text.{codes}
use git_kmssign.Cert.{Identity}
use git_kmssign.Status.Events.{printed}
use git_kmssign.Command.{Cms, System}
use git_kmssign.Command.ListKeys.{Printer, command_list_keys}
use git_kmssign.Command.Sign.{command_sign}
use git_kmssign.Command.Verify.{command_verify}
use git_kmssign.Command.Options.{
  Options, Action, run_sign, run_verify, run_list_keys, include_certs_value, select_action,
}
use git_kmssign.Command.Options.Correct.{Allowed, select_action_iff}
use git_kmssign.Command.Run.{
  CommandError, bad_include_certs, cannot_open_store, cannot_list_identities, Run, done, failed,
  or_fail-bind, if-run,
}
use git_kmssign.Command.Main.{Banner, run_action, run_selected, run_with_store, run_command}

-- The options of the commands: --include-certs may come from the environment.
abbrev pub with_include : Options → ℤ → Options
with_include o include = record o { include_certs = include }

module _ (sys : System) (cms : Cms) (printer : Printer) where
  -- What the three commands run, with the identities of the store.
  pub data Runs (idents : List Identity) (o : Options) : Action → Run (Unit {0}) → Type 0 where
    signs : Runs idents o run_sign (command_sign sys cms idents o)
    verifies : Runs idents o run_verify (command_verify sys cms idents o)
    lists : Runs idents o run_list_keys (done (command_list_keys sys.sha1 printer idents) tt)

  run_action-Runs :
      (idents : List Identity) (o : Options) (a : Action)
      → Runs idents o a (run_action sys cms printer idents o a)
  unfolding run_action
  run_action-Runs idents o run_sign = signs
  run_action-Runs idents o run_verify = verifies
  run_action-Runs idents o run_list_keys = lists

  -- How runCommand ends. A command is run only with the flags that it allows, and with the identities
  -- of the store.
  pub data Ran (banner : Banner) (o : Options) : Run (Unit {0}) → Type 0 where
    usage_printed : o.help ≡ true → Ran banner o (done (printed banner.usage ∷ []) tt)
    version_printed :
        o.help ≡ false
        → o.version ≡ true
        → Ran banner o (done (printed (banner.version_string ++ codes "\n") ∷ []) tt)
    include_certs_refused :
        include_certs_value o sys.include_certs_env ≡ none
        → Ran banner o (failed [] bad_include_certs)
    store_not_opened : sys.store ≡ none → Ran banner o (failed [] cannot_open_store)
    identities_not_listed : sys.store ≡ some none → Ran banner o (failed [] cannot_list_identities)
    no_action : (e : CommandError) → ((a : Action) → ¬ Allowed o a) → Ran banner o (failed [] e)
    acted :
        {r : Run (Unit {0})} (idents : List Identity) (include : ℤ) (a : Action)
        → o.help ≡ false
        → o.version ≡ false
        → sys.store ≡ some (some idents)
        → include_certs_value o sys.include_certs_env ≡ some include
        → Allowed o a
        → Runs idents (with_include o include) a r
        → Ran banner o r

  run_selected-Ran :
      (banner : Banner) (o : Options) (idents : List Identity) (include : ℤ)
      → o.help ≡ false
      → o.version ≡ false
      → sys.store ≡ some (some idents)
      → include_certs_value o sys.include_certs_env ≡ some include
      → (choice : CommandError ⊎ Action) → select_action (with_include o include) ≡ choice
      → Ran banner o (run_selected sys cms printer idents (with_include o include) choice)
  unfolding run_selected
  run_selected-Ran banner o idents include h v store inc (inl e) sel =
      no_action e
        λ a allowed. let act = (select_action_iff (with_include o include) a).1 allowed in cc
  run_selected-Ran banner o idents include h v store inc (inr a) sel =
      acted idents include a h v store inc ((select_action_iff (with_include o include) a).0 sel)
        (run_action-Runs idents (with_include o include) a)

  run_with_store-Ran :
      (banner : Banner) (o : Options)
      → o.help ≡ false
      → o.version ≡ false
      → Ran banner o (run_with_store sys cms printer o)
  unfolding run_with_store
  run_with_store-Ran banner o h v =
      or_fail-bind (Ran banner o) (include_certs_value o sys.include_certs_env) bad_include_certs
        include_certs_refused
        λ include inc.
          or_fail-bind (Ran banner o) sys.store cannot_open_store store_not_opened λ store opened.
            or_fail-bind (Ran banner o) store cannot_list_identities
              (λ none'. identities_not_listed (opened ∙ ap some none'))
              λ idents listed.
                run_selected-Ran banner o idents include h v (opened ∙ ap some listed) inc
                  (select_action (with_include o include)) refl

  -- runCommand prints the usage or the version, or returns an error, or runs one of the commands: that
  -- which alone is asked for, with the flags that it allows.
  pub run_command-Ran :
      (banner : Banner) (o : Options) → Ran banner o (run_command sys cms printer banner o)
  unfolding run_command
  run_command-Ran banner o =
      if-run (Ran banner o) o.help usage_printed
        λ h. if-run (Ran banner o) o.version (version_printed h) (run_with_store-Ran banner o h)
