-- ===== src/Azure/Config/Correct.antt =====
-- Which variables LoadConfig of azuresign/config.go wants.
use git_kmssign.Base.{
  ◌≡◌, ◌≢◌, refl, subst, ◌↔◌, ◌⊎◌, inl, inr, List, [], ◌∷◌, Any, Any-append, Result, ok, err,
  missing_variables,
}
use git_kmssign.Base.Text.{Text, codes}
use git_kmssign.Azure.Config.{
  env_vault_url, env_key_name, env_cert_path, Config, append_missing, missing_of, read_config,
  config_or_missing, load_config,
}

-- The three variables that must be set.
pub data Required : Text → Type 0 where
  url_required : Required (codes "GIT_KMSSIGN_VAULT_URL")
  key_required : Required (codes "GIT_KMSSIGN_KEY_NAME")
  cert_required : Required (codes "GIT_KMSSIGN_CERT")

-- The values of the four variables.
pub record IsRead (getenv : Text → Text) (cfg : Config) : Type 0 where
  pub is_url : cfg.vault_url ≡ getenv (codes "GIT_KMSSIGN_VAULT_URL")
  pub is_name : cfg.key_name ≡ getenv (codes "GIT_KMSSIGN_KEY_NAME")
  pub is_version : cfg.key_version ≡ getenv (codes "GIT_KMSSIGN_KEY_VERSION")
  pub is_path : cfg.cert_path ≡ getenv (codes "GIT_KMSSIGN_CERT")

read_config-IsRead : (getenv : Text → Text) → IsRead getenv (read_config getenv)
unfolding read_config
read_config-IsRead getenv = record {
  is_url = refl;
  is_name = refl;
  is_version = refl;
  is_path = refl;
}

abbrev Member : Text → List Text → Type 0
Member name names = Any (λ n. n ≡ name) names

append_missing-Member :
    (value name : Text) (missing : List Text) (n : Text)
    → Member n (append_missing value name missing)
      ↔ (Member n missing ⊎ ((value ≡ []) × (name ≡ n)))
unfolding append_missing
append_missing-Member [] name missing n =
    let (to, back) = Any-append (λ m. m ≡ n) missing (name ∷ []) in
    (
      λ h. elim (to h) [
        | inl m ↦ inl m
        | inr last ↦ elim last [ inl e ↦ inr (refl, e) | inr no_more ↦ elim no_more [ ] ]
      ],
      λ h. elim h [ inl m ↦ back (inl m) | inr both ↦ back (inr (inl both.1)) ],
    )
append_missing-Member (c ∷ value) name missing n =
    (λ h. inl h, λ h. elim h [ inl m ↦ m | inr both ↦ cc ])

-- A name that equals a required one whose value is empty.
Required-empty :
    (getenv : Text → Text) {name n : Text}
    → Required name
    → ((getenv name ≡ []) × (name ≡ n))
    → Required n × (getenv n ≡ [])
Required-empty getenv required (e, same) =
    subst (λ x. Required x × (getenv x ≡ [])) same (required, e)

Required-Member :
    (getenv : Text → Text) {n : Text}
    → Required n
    → getenv n ≡ []
    → Member n (missing_of (read_config getenv))
unfolding missing_of read_config
Required-Member getenv url_required e =
    (append_missing-Member (getenv env_cert_path) env_cert_path _ _).1 (
      inl (
        (append_missing-Member (getenv env_key_name) env_key_name _ _).1 (
          inl
            ((append_missing-Member (getenv env_vault_url) env_vault_url [] _).1 (inr (e, refl))))))
Required-Member getenv key_required e =
    (append_missing-Member (getenv env_cert_path) env_cert_path _ _).1
      (inl ((append_missing-Member (getenv env_key_name) env_key_name _ _).1 (inr (e, refl))))
Required-Member getenv cert_required e =
    (append_missing-Member (getenv env_cert_path) env_cert_path _ _).1 (inr (e, refl))

-- What is missing are the required variables that are empty.
read_config-Member :
    (getenv : Text → Text) (n : Text)
    → Member n (missing_of (read_config getenv)) ↔ (Required n × (getenv n ≡ []))
unfolding missing_of read_config
read_config-Member getenv n =
    let url = append_missing-Member (getenv env_vault_url) env_vault_url [] n in
    let after_url = append_missing (getenv env_vault_url) env_vault_url [] in
    let key = append_missing-Member (getenv env_key_name) env_key_name after_url n in
    let after_key = append_missing (getenv env_key_name) env_key_name after_url in
    let cert = append_missing-Member (getenv env_cert_path) env_cert_path after_key n in
    (
      λ h. elim (cert.0 h) [
        | inr both ↦ Required-empty getenv cert_required both
        | inl m ↦ elim (key.0 m) [
          | inr both ↦ Required-empty getenv key_required both
          | inl m' ↦ elim (url.0 m') [
            | inr both ↦ Required-empty getenv url_required both
            | inl no_more ↦ elim no_more [ ]
          ]
        ]
      ],
      λ (required, e). Required-Member getenv required e,
    )

-- What LoadConfig returns: the four values, if the three required ones are not empty, or an error that
-- lists those of the three that are.
pub data Loads (getenv : Text → Text) : Result Config → Type 0 where
  all_set :
      {cfg : Config}
      → ((name : Text) → Required name → getenv name ≢ [])
      → IsRead getenv cfg
      → Loads getenv (ok cfg)
  some_missing :
      {names : List Text}
      → names ≢ []
      → ((name : Text) → Any (λ n. n ≡ name) names ↔ (Required name × (getenv name ≡ [])))
      → Loads getenv (err (missing_variables names))

config_or_missing-Loads :
    (getenv : Text → Text) (missing : List Text)
    → ((n : Text) → Member n missing ↔ (Required n × (getenv n ≡ [])))
    → Loads getenv (config_or_missing (read_config getenv) missing)
unfolding config_or_missing
config_or_missing-Loads getenv [] members =
    all_set (λ name required empty. (members name).1 (required, empty)) (read_config-IsRead getenv)
config_or_missing-Loads getenv (name ∷ missing) members = some_missing (λ e. cc) members

-- LoadConfig returns the four values if the three required variables are not empty, and otherwise an
-- error that lists exactly those of the three that are.
pub load_config-Loads : (getenv : Text → Text) → Loads getenv (load_config getenv)
unfolding load_config
load_config-Loads getenv =
    config_or_missing-Loads getenv (missing_of (read_config getenv)) (read_config-Member getenv)
