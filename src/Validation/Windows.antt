-- ===== src/Validation/Windows.antt =====
-- pkg/api/vlabs/validate.go: the checks of the Windows profile and of its secrets.
use Prim.Native.Char.{Char, code}
use aks_engine.Common.{
  ℕ, ◌+◌, String, Bool, true, false, not, ◌&&◌, ◌||◌, Option, none, some, List, [], ◌∷◌,
  if◌then◌else◌, ltb, leb, nat_beq, nat_eq, ◌==◌, string_eq, is_empty, ok, err, ◌>>◌,
}
use aks_engine.Patterns.{is_digit}
use aks_engine.Versions.Select.{dcos, kubernetes}
use aks_engine.Validation.{
  Check, refuse_if, empty_certificates, source_vault_missing, source_vault_id_missing,
  invalid_certificate_url, certificate_store_missing, custom_windows_image, admin_username_missing,
  admin_password_missing, weak_admin_password,
}

pub record VaultCertificate : Type 0 where
  pub certificate_url : String
  pub certificate_store : String

-- `source_vault` is a pointer to an identifier.
pub record KeyVaultSecrets : Type 0 where
  pub source_vault : Option String
  pub vault_certificates : List VaultCertificate

pub record WindowsProfile : Type 0 where
  pub admin_username : String
  pub admin_password : String
  pub windows_image_source_url : String
  pub secrets : List KeyVaultSecrets

unfoldable pub any_char : (Char → Bool) → String → Bool
any_char p String.[] = false
any_char p (String.◌∷◌ c s) = p c || any_char p s

abbrev is_upper : Char → Bool
is_upper c = leb b'A' (code c) && leb (code c) b'Z'

abbrev is_small : Char → Bool
is_small c = leb b'a' (code c) && leb (code c) b'z'

-- [~!@#\$%\^&\*_\-\+=\x60\|\(\){}\[\]:;"'<>,\.\?/]: the printable characters of ASCII that are
-- neither letters nor digits, without the space and the backslash.
abbrev is_special : Char → Bool
is_special c =
    (leb 33 (code c) && leb (code c) 47)
    || (leb 58 (code c) && leb (code c) 64)
    || nat_beq (code c) 91
    || (leb 93 (code c) && leb (code c) 96)
    || (leb 123 (code c) && leb (code c) 126)

abbrev hit : Bool → ℕ
hit b = if b then 1 else 0

abbrev certificate_source : Option String → Check
certificate_source none = err source_vault_missing
certificate_source (some id) = refuse_if (is_empty id) source_vault_id_missing

abbrev has_none : List VaultCertificate → Bool
has_none [] = true
has_none (c ∷ cs) = false

-- `equal_fold` is strings.EqualFold, and `url_parses` whether url.Parse succeeds.
module _ (equal_fold : String → String → Bool) (url_parses : String → Bool) where
  unfoldable pub validate_password_complexity : String → String → Bool
  unfolding any_char is_digit
  validate_password_complexity name password =
      not (equal_fold name password)
      && not (is_empty password)
      && ltb 2 (
          hit (any_char is_digit password)
          + hit (any_char is_upper password)
          + hit (any_char is_small password)
          + hit (any_char is_special password))

  unfoldable pub validate_certificates : Bool → List VaultCertificate → Check
  validate_certificates require_store [] = ok tt
  validate_certificates require_store (c ∷ cs) = do
    refuse_if (not (url_parses c.certificate_url)) (invalid_certificate_url c.certificate_url)
    refuse_if (require_store && is_empty c.certificate_store) certificate_store_missing
    validate_certificates require_store cs

  unfoldable pub validate_key_vault_secrets : List KeyVaultSecrets → Bool → Check
  unfolding validate_certificates
  validate_key_vault_secrets [] require_store = ok tt
  validate_key_vault_secrets (s ∷ secrets) require_store = do
    refuse_if (has_none s.vault_certificates) empty_certificates
    certificate_source s.source_vault
    validate_certificates require_store s.vault_certificates
    validate_key_vault_secrets secrets require_store

  unfoldable pub validate_windows_profile : WindowsProfile → String → Check
  unfolding validate_password_complexity validate_key_vault_secrets
  validate_windows_profile w orchestrator_type = do
    refuse_if
        (not (is_empty w.windows_image_source_url)
          && not (orchestrator_type == dcos || orchestrator_type == kubernetes))
        custom_windows_image
    refuse_if (is_empty w.admin_username) admin_username_missing
    refuse_if (is_empty w.admin_password) admin_password_missing
    refuse_if (not (validate_password_complexity w.admin_username w.admin_password))
        weak_admin_password
    validate_key_vault_secrets w.secrets true
