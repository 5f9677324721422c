-- ===== src/Azure/Config.antt =====
-- azuresign/config.go.
pub mod Correct
use git_kmssign.Base.{
  ℕ, ◌≡◌, ◌≢◌, refl, ap, ◌↔◌, ◌⊎◌, inl, inr, Bool, true, false, List, [], ◌∷◌, ◌++◌, length, ltb,
  Any, bytes_eq, if◌then◌else◌, Result, ok, err, missing_variables,
}
use git_kmssign.Base.Text.{Text, codes}

abbrev pub env_vault_url : Text
env_vault_url = codes "GIT_KMSSIGN_VAULT_URL"

abbrev pub env_key_name : Text
env_key_name = codes "GIT_KMSSIGN_KEY_NAME"

abbrev pub env_key_version : Text
env_key_version = codes "GIT_KMSSIGN_KEY_VERSION"

abbrev pub env_cert_path : Text
env_cert_path = codes "GIT_KMSSIGN_CERT"

pub record Config : Type 0 where
  pub vault_url : Text
  pub key_name : Text
  pub key_version : Text
  pub cert_path : Text

-- if value == "" { missing = append(missing, name) }
unfoldable pub append_missing : Text → Text → List Text → List Text
append_missing [] name missing = missing ++ (name ∷ [])
append_missing (c ∷ value) name missing = missing

unfoldable pub missing_of : Config → List Text
missing_of cfg =
    append_missing cfg.cert_path env_cert_path
      (append_missing cfg.key_name env_key_name (append_missing cfg.vault_url env_vault_url []))

module _ (getenv : Text → Text) where
  unfoldable pub read_config : Config
  read_config = record {
    vault_url = getenv env_vault_url;
    key_name = getenv env_key_name;
    key_version = getenv env_key_version;
    cert_path = getenv env_cert_path;
  }

-- The decision of LoadConfig on what is missing.
unfoldable pub config_or_missing : Config → List Text → Result Config
config_or_missing cfg [] = ok cfg
config_or_missing cfg (name ∷ missing) = err (missing_variables (name ∷ missing))

unfoldable pub load_config : (Text → Text) → Result Config
load_config getenv = config_or_missing (read_config getenv) (missing_of (read_config getenv))
