-- ===== src/Config.antt =====
-- internal/config/config.go: the configured terminals, what `Validate` accepts, and the fingerprints
-- that bind a stored session to its configuration. The numbers of a terminal are not negative here:
-- `Validate` refuses a negative one by the test by which it refuses 0.
pub mod Valid
use face_recognition_proxy.Prelude.{
  ℕ, ◌+◌, Bool, true, false, not, ◌&&◌, ◌||◌, Option, none, some, List, [], ◌∷◌, ◌++◌, map, String,
  Bytes, codes, utf8, decimal, is_space, is_digit, is_upper, is_lower, is_lower_hex, ltb, leb,
  nat_eq, string_eq, ◌==◌, if◌then◌else◌, length, take, all,
}
use face_recognition_proxy.Result.{Result, ok, err, ◌>>=◌, ◌>>◌, refuse}
use face_recognition_proxy.Encoding.Hex

pub record Terminal : Type 0 where
  pub serial_number : String
  pub push_sdk_serial : String
  pub username : String
  pub password_environment_variable : String
  pub password : String
  pub login_password_digest : String
  pub security_version : ℕ
  pub command_interval_seconds : ℕ
  pub error_delay_seconds : ℕ

pub record Config : Type 0 where
  pub listen_address : String
  pub database_url : String
  pub terminals_file : String
  pub admin_username : String
  pub admin_password : String
  pub web_dir : String
  pub migrations_dir : String
  pub session_ttl : ℕ
  pub metrics_cidrs : List String
  pub terminals : List Terminal
  pub delivery_signing_keys : List (String × String)

pub data ConfigError : Type 0 where
  bad_signing_keys : ConfigError
  setting_required : String → ConfigError
  session_ttl_not_positive metrics_cidrs_required no_terminal : ConfigError
  field_required serial_duplicated push_serial_duplicated bad_digest bad_security_version
        bad_command_interval bad_error_delay bad_variable_name bad_password :
      ℕ → ConfigError

-- `strings.TrimSpace(value) == ""`
abbrev pub is_blank : String → Bool
is_blank value = all is_space (codes value)

-- `^[A-Za-z0-9_-]{1,64}$`
is_key_id : Bytes → Bool
is_key_id cs =
    leb 1 (length cs)
    && leb (length cs) 64
    && all (λ c. is_upper c || is_lower c || is_digit c || c == b'_' || c == b'-') cs

-- `^[0-9a-f]{64}$`
is_signing_key : Bytes → Bool
is_signing_key cs = length cs == 64 && all is_lower_hex cs

-- `^[A-Z][A-Z0-9_]*$`
unfoldable pub is_environment_variable_name : Bytes → Bool
is_environment_variable_name [] = false
is_environment_variable_name (c ∷ cs) =
    is_upper c && all (λ d. is_upper d || is_digit d || d == b'_') cs

signing_keys_valid : List (String × String) → Bool
signing_keys_valid [] = true
signing_keys_valid ((id, key) ∷ keys) =
    is_key_id (codes id) && is_signing_key (codes key) && signing_keys_valid keys

pub settings : Config → List (String × String)
settings c =
    ("GATEWAY_LISTEN_ADDRESS", c.listen_address)
    ∷ ("DATABASE_URL", c.database_url)
    ∷ ("GATEWAY_TERMINALS_FILE", c.terminals_file)
    ∷ ("ADMIN_USERNAME", c.admin_username)
    ∷ ("ADMIN_PASSWORD", c.admin_password)
    ∷ ("WEB_DIR", c.web_dir)
    ∷ ("MIGRATIONS_DIR", c.migrations_dir)
    ∷ []

settings_present : List (String × String) → Result ConfigError (Unit {0})
settings_present [] = ok tt
settings_present ((name, value) ∷ rest) =
    if is_blank value then err (setting_required name) else settings_present rest

unfoldable pub seen : String → List String → Bool
seen s [] = false
seen s (t ∷ ts) = t == s || seen s ts

-- The body of the loop over the terminals. The five text fields are tested in the order of a Go map,
-- which is not fixed; each test gives the same error here.
unfoldable pub validate_terminal :
    ℕ → List String → List String → Terminal → Result ConfigError (Unit {0})
unfolding seen is_environment_variable_name
validate_terminal i seen_device seen_push t = do
  refuse
      (is_blank t.serial_number
        || is_blank t.push_sdk_serial
        || is_blank t.username
        || is_blank t.password_environment_variable
        || is_blank t.login_password_digest)
      (field_required i)
  refuse (seen t.serial_number seen_device) (serial_duplicated i)
  refuse (seen t.push_sdk_serial seen_push) (push_serial_duplicated i)
  refuse (not (t.login_password_digest == "sha1") && not (t.login_password_digest == "sha256"))
      (bad_digest i)
  refuse (not (t.security_version == 3) && not (t.security_version == 4)) (bad_security_version i)
  refuse (ltb t.command_interval_seconds 1 || ltb 300 t.command_interval_seconds)
      (bad_command_interval i)
  refuse (ltb t.error_delay_seconds 30 || ltb 300 t.error_delay_seconds) (bad_error_delay i)
  refuse (not (is_environment_variable_name (codes t.password_environment_variable)))
      (bad_variable_name i)
  refuse (ltb (length (utf8 t.password)) 1 || ltb 64 (length (utf8 t.password))) (bad_password i)

unfoldable pub validate_terminals :
    ℕ → List String → List String → List Terminal → Result ConfigError (Unit {0})
validate_terminals i seen_device seen_push [] = ok tt
validate_terminals i seen_device seen_push (t ∷ ts) = do
  validate_terminal i seen_device seen_push t
  validate_terminals (i + 1) (t.serial_number ∷ seen_device) (t.push_sdk_serial ∷ seen_push) ts

is_empty {ℓ} : {A : Type ℓ} → List A → Bool
is_empty [] = true
is_empty (_ ∷ _) = false

unfoldable pub validate : Config → Result ConfigError (Unit {0})
unfolding is_key_id is_signing_key signing_keys_valid settings settings_present is_empty
validate c = do
  refuse (not (signing_keys_valid c.delivery_signing_keys)) bad_signing_keys
  settings_present (settings c)
  refuse (leb c.session_ttl 0) session_ttl_not_positive
  refuse (is_empty c.metrics_cidrs) metrics_cidrs_required
  refuse (is_empty c.terminals) no_terminal
  validate_terminals 0 [] [] c.terminals

find_terminal : (Terminal → String) → String → List Terminal → Option Terminal
find_terminal key serial [] = none
find_terminal key serial (t ∷ ts) = if key t == serial then some t else find_terminal key serial ts

unfoldable pub terminal_by_push_sdk_serial : Config → String → Option Terminal
unfolding find_terminal
terminal_by_push_sdk_serial c serial = find_terminal (λ t. t.push_sdk_serial) serial c.terminals

unfoldable pub terminal_by_serial_number : Config → String → Option Terminal
unfolding find_terminal
terminal_by_serial_number c serial = find_terminal (λ t. t.serial_number) serial c.terminals

-- SHA-256 is an argument.
module _ (sha256 : Bytes → Bytes) where
  unfoldable pub credential_fingerprint : Terminal → Bytes
  credential_fingerprint t = Hex.encode (take 8 (sha256 (utf8 t.username ++ 0 ∷ utf8 t.password)))

  unfoldable pub session_fingerprint : Terminal → Bytes
  unfolding credential_fingerprint
  session_fingerprint t = Hex.encode (
      sha256 (
        credential_fingerprint t
        ++ 0 ∷ utf8 t.login_password_digest
        ++ 0 ∷ decimal t.security_version
        ++ 0 ∷ decimal t.command_interval_seconds
        ++ 0 ∷ decimal t.error_delay_seconds
        ++ 0 ∷ utf8 t.push_sdk_serial))
