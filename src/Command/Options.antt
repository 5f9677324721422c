-- ===== src/Command/Options.antt =====
-- The flags of main.go, and which command they select.
pub mod Correct
use git_kmssign.Base.{
  ℕ, zero, suc, ◌+◌, ◌-◌, ◌*◌, ◌^◌, ◌≡◌, ◌==◌, ltb, leb, Bool, true, false, not, ◌&&◌, ◌||◌, List,
  [], ◌∷◌, length, Option, none, some, if◌then◌else◌, ◌⊎◌, inl, inr,
}
use git_kmssign.Base.Int.{ℤ, pos, negsuc}
use git_kmssign.Base.Text.{Text}
use git_kmssign.Command.Run.{
  CommandError, bad_include_certs, wrong_action, no_user_id, local_user_given, detach_sign_given,
  armor_given,
}

-- What getopt leaves in the flags, and getopt.Lookup("include-certs").Seen().
pub record Options : Type 0 where
  pub help : Bool
  pub version : Bool
  pub sign : Bool
  pub verify : Bool
  pub list_keys : Bool
  pub local_user : Text
  pub detach_sign : Bool
  pub armor : Bool
  pub status_fd : ℤ
  pub tsa : Text
  pub include_certs : ℤ
  pub include_certs_seen : Bool
  pub file_args : List Text

-- Decimal digits, at least one of them when `started` is false.
digits_value : ℕ → Bool → Text → Option ℕ
digits_value acc started [] = if started then some acc else none
digits_value acc started (c ∷ cs) =
    let more = digits_value (acc * 10 + (c - b'0')) true cs in
    if leb b'0' c && leb c b'9' then more else none

-- The value of a number that fits 64 bits.
signed : Bool → Option ℕ → Option ℤ
signed negative none = none
signed true (some zero) = some (pos 0)
signed true (some (suc n)) = if ltb n (2 ^ 63) then some (negsuc n) else none
signed false (some n) = if ltb n (2 ^ 63) then some (pos n) else none

-- strconv.Atoi.
pub atoi : Text → Option ℤ
unfolding digits_value signed
atoi [] = none
atoi (c ∷ cs) =
    let negative = signed true (digits_value 0 false cs) in
    let positive = signed false (digits_value 0 false cs) in
    let plain = signed false (digits_value 0 false (c ∷ cs)) in
    if c == b'-' then negative else if c == b'+' then positive else plain

-- The value of --include-certs, which the environment gives when the flag is not: `none` is the error.
pub include_certs_value : Options → Text → Option ℤ
include_certs_value o env =
    if not o.include_certs_seen && not (length env == 0) then atoi env else some o.include_certs

pub data Action : Type 0 where
  run_sign run_verify run_list_keys : Action

-- The three ifs at the end of runCommand, as the command that is called or the error that is
-- returned.
pub select_action : Options → CommandError ⊎ Action
select_action o =
    if o.sign
    then if o.verify || o.list_keys
      then inl wrong_action
      else if length o.local_user == 0
      then inl no_user_id
      else inr run_sign
    else if o.verify
    then if o.sign || o.list_keys
      then inl wrong_action
      else if ltb 0 (length o.local_user)
      then inl local_user_given
      else if o.detach_sign
      then inl detach_sign_given
      else if o.armor
      then inl armor_given
      else inr run_verify
    else if o.list_keys
    then if o.sign || o.verify
      then inl wrong_action
      else if ltb 0 (length o.local_user)
      then inl local_user_given
      else if o.detach_sign
      then inl detach_sign_given
      else if o.armor
      then inl armor_given
      else inr run_list_keys
    else inl wrong_action
