-- ===== src/Command/Options/Correct.antt =====
-- Which flags select which command (main.go).
use git_kmssign.Base.{◌≡◌, ◌≢◌, ◌↔◌, refl, true, false, [], ◌∷◌, length, ltb, ◌==◌, inr, arith}
use git_kmssign.Base.Text.{Text}
use git_kmssign.Command.Options.{
  Options, Action, run_sign, run_verify, run_list_keys, select_action,
}

-- One command is asked for, and the flags are those that it allows: --sign needs a user id, and the
-- others take neither a user id nor --detach-sign nor --armor.
abbrev pub Allowed : Options → Action → Type 0
Allowed o run_sign =
    (o.sign ≡ true) × (o.verify ≡ false) × (o.list_keys ≡ false) × (o.local_user ≢ [])
Allowed o run_verify =
    (o.sign ≡ false)
    × (o.verify ≡ true)
    × (o.list_keys ≡ false)
    × (o.local_user ≡ [])
    × (o.detach_sign ≡ false)
    × (o.armor ≡ false)
Allowed o run_list_keys =
    (o.sign ≡ false)
    × (o.verify ≡ false)
    × (o.list_keys ≡ true)
    × (o.local_user ≡ [])
    × (o.detach_sign ≡ false)
    × (o.armor ≡ false)

no_text : (t : Text) → (length t == 0) ≡ true → t ≡ []
no_text [] h = refl
no_text (c ∷ t) h = absurd (ground arith)

some_text : (t : Text) → ltb 0 (length t) ≡ false → t ≡ []
some_text [] h = refl
some_text (c ∷ t) h = absurd (ground arith)

select_action-Allowed : (o : Options) (a : Action) → select_action o ≡ inr a → Allowed o a
unfolding select_action
select_action-Allowed o run_sign h = ground arith
select_action-Allowed o run_verify h = ground (arith, some_text o.local_user)
select_action-Allowed o run_list_keys h = ground (arith, some_text o.local_user)

Allowed-select_action : (o : Options) (a : Action) → Allowed o a → select_action o ≡ inr a
unfolding select_action
Allowed-select_action o run_sign (s, v, l, ne) =
    let non_empty = no_text o.local_user in rw (s, v, l) (ground arith)
Allowed-select_action o run_verify (s, v, l, e, d, ar) = rw (s, v, l, e, d, ar) refl
Allowed-select_action o run_list_keys (s, v, l, e, d, ar) = rw (s, v, l, e, d, ar) refl

-- A command is run exactly if it is the only one asked for, with flags that it allows.
pub select_action_iff : (o : Options) (a : Action) → (select_action o ≡ inr a) ↔ Allowed o a
select_action_iff o a = (select_action-Allowed o a, Allowed-select_action o a)
