-- ===== src/Command/ListKeys/Correct.antt =====
-- What commandListKeys of list_keys_command.go prints.
use git_kmssign.Base.{◌≡◌, refl, ap, append-nil, false, List, [], ◌∷◌, ◌++◌, map, Bytes}
use git_kmssign.Base.Text.{codes}
use git_kmssign.Cert.{Identity}
use git_kmssign.Status.Events.{Event, printed}
use git_kmssign.Command.ListKeys.{Printer, list_identity, list_identities, command_list_keys}

-- The parts with `gap` between them.
abbrev pub separated : Event → List (List Event) → List Event
separated gap [] = []
separated gap (part ∷ []) = part
separated gap (part ∷ part' ∷ parts) = part ++ (gap ∷ separated gap (part' ∷ parts))

module _ (sha1 : Bytes → Bytes) (printer : Printer) where
  abbrev gap : Event
  gap = printed (codes "\n")

  list_identities-separated :
      (ident : Identity) (idents : List Identity)
      → list_identities sha1 printer false (ident ∷ idents)
        ≡ separated gap (map (list_identity sha1 printer) (ident ∷ idents))
  unfolding list_identities
  list_identities-separated ident [] = append-nil _
  list_identities-separated ident (ident' ∷ idents) =
      ap (λ rest. list_identity sha1 printer ident ++ (gap ∷ rest))
        (list_identities-separated ident' idents)

  -- `--list-keys` prints the identities of the store in order, one blank line between each two.
  pub command_list_keys-separated :
      (idents : List Identity)
      → command_list_keys sha1 printer idents
        ≡ separated (printed (codes "\n")) (map (list_identity sha1 printer) idents)
  unfolding command_list_keys list_identities
  command_list_keys-separated [] = refl
  command_list_keys-separated (ident ∷ idents) = list_identities-separated ident idents
