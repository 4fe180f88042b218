-- ===== src/Config/Valid.antt =====
-- What `Validate` of internal/config/config.go promises of the terminals that it accepts.
use text.Mathlib.TextPositions.{eq_refl}
use face_recognition_proxy.Prelude.{
  ℕ, refl, ◌+◌, ◌≤◌, ◌≡◌, ◌⊎◌, false, some, List, [], ◌∷◌, String, eq_iff, utf8, arith, nat_eq,
  string_eq, length, All, Bytes, codes, all, true, ◌||◌, ◌==◌, is_upper, is_digit,
}
use face_recognition_proxy.Result.{ok}
use face_recognition_proxy.Config.{
  Terminal, Config, is_blank, is_environment_variable_name, seen, validate_terminal,
  validate_terminals, validate, find_terminal, terminal_by_push_sdk_serial,
  terminal_by_serial_number,
}

abbrev IsUpper : ℕ → Type 0
IsUpper c = (65 ≤ c) × (c ≤ 90)

-- A capital letter, a digit or an underscore.
abbrev IsNameCharacter : ℕ → Type 0
IsNameCharacter c = IsUpper c ⊎ (((48 ≤ c) × (c ≤ 57)) ⊎ (c ≡ 95))

abbrev pub IsVariableName : Bytes → Type 0
IsVariableName name =
    (first : ℕ) × (others : Bytes) × (name ≡ first ∷ others)
    × IsUpper first
    × All IsNameCharacter others

name_characters :
    (cs : Bytes)
    → all (λ d. is_upper d || is_digit d || d == b'_') cs ≡ true
    → All IsNameCharacter cs
name_characters [] h = tt
name_characters (c ∷ cs) h = ground (arith, name_characters cs)

name-IsVariableName :
    (name : Bytes) → is_environment_variable_name name ≡ true → IsVariableName name
unfolding is_environment_variable_name
name-IsVariableName [] h = absurd (ground arith)
name-IsVariableName (c ∷ cs) h = (c, cs, refl, ground arith, name_characters cs (ground (arith, h)))

pub record IsValidTerminal (t : Terminal) : Type 0 where
  pub serial_present : is_blank t.serial_number ≡ false
  pub push_serial_present : is_blank t.push_sdk_serial ≡ false
  pub username_present : is_blank t.username ≡ false
  pub digest : (t.login_password_digest ≡ "sha1") ⊎ (t.login_password_digest ≡ "sha256")
  pub version : (t.security_version ≡ 3) ⊎ (t.security_version ≡ 4)
  pub variable_name : IsVariableName (codes t.password_environment_variable)
  pub interval_low : 1 ≤ t.command_interval_seconds
  pub interval_high : t.command_interval_seconds ≤ 300
  pub delay_low : 30 ≤ t.error_delay_seconds
  pub delay_high : t.error_delay_seconds ≤ 300
  pub password_low : 1 ≤ length (utf8 t.password)
  pub password_high : length (utf8 t.password) ≤ 64

module _ (i : ℕ) (devices pushes : List String) (t : Terminal) where
  terminal_new :
      validate_terminal i devices pushes t ≡ ok tt
      → (seen t.serial_number devices ≡ false) × (seen t.push_sdk_serial pushes ≡ false)
  unfolding validate_terminal
  terminal_new h = ground arith

  valid_name :
      validate_terminal i devices pushes t ≡ ok tt
      → is_environment_variable_name (codes t.password_environment_variable) ≡ true
  unfolding validate_terminal
  valid_name h = ground arith

  terminal-IsValidTerminal : validate_terminal i devices pushes t ≡ ok tt → IsValidTerminal t
  unfolding validate_terminal
  terminal-IsValidTerminal h = record {
    serial_present = ground arith;
    push_serial_present = ground arith;
    username_present = ground arith;
    digest =
        ground
          (arith, eq_iff t.login_password_digest "sha1", eq_iff t.login_password_digest "sha256");
    version = ground arith;
    variable_name = name-IsVariableName (codes t.password_environment_variable) (valid_name h);
    interval_low = ground arith;
    interval_high = ground arith;
    delay_low = ground arith;
    delay_high = ground arith;
    password_low = ground arith;
    password_high = ground arith;
  }

split_ok :
    (i : ℕ) (devices pushes : List String) (t : Terminal) (ts : List Terminal)
    → validate_terminals i devices pushes (t ∷ ts) ≡ ok tt
    → (validate_terminal i devices pushes t ≡ ok tt)
      × (validate_terminals (i + 1) (t.serial_number ∷ devices) (t.push_sdk_serial ∷ pushes) ts
          ≡ ok tt)
unfolding validate_terminals
split_ok i devices pushes t ts h = ground arith

terminals-IsValidTerminal :
    (i : ℕ) (devices pushes : List String) (ts : List Terminal)
    → validate_terminals i devices pushes ts ≡ ok tt
    → All IsValidTerminal ts
terminals-IsValidTerminal i devices pushes [] h = tt
terminals-IsValidTerminal i devices pushes (t ∷ ts) h =
    let (first, rest) = split_ok i devices pushes t ts h in
    (
      terminal-IsValidTerminal i devices pushes t first,
      terminals-IsValidTerminal (i + 1) _ _ ts rest,
    )

-- Both identifiers of a terminal are new to the lists of those seen before.
abbrev IsNew : List String → List String → Terminal → Type 0
IsNew devices pushes t =
    (seen t.serial_number devices ≡ false) × (seen t.push_sdk_serial pushes ≡ false)

forget_head :
    (d q : String) (devices pushes : List String) (ts : List Terminal)
    → All (IsNew (d ∷ devices) (q ∷ pushes)) ts
    → All (IsNew devices pushes) ts
unfolding seen
forget_head d q devices pushes [] h = tt
forget_head d q devices pushes (t ∷ ts) h = ground (arith, forget_head d q devices pushes ts h.1)

terminals-IsNew :
    (i : ℕ) (devices pushes : List String) (ts : List Terminal)
    → validate_terminals i devices pushes ts ≡ ok tt
    → All (IsNew devices pushes) ts
terminals-IsNew i devices pushes [] h = tt
terminals-IsNew i devices pushes (t ∷ ts) h =
    let (first, rest) = split_ok i devices pushes t ts h in
    (
      terminal_new i devices pushes t first,
      forget_head t.serial_number t.push_sdk_serial devices pushes ts (
          terminals-IsNew (i + 1) (t.serial_number ∷ devices) (t.push_sdk_serial ∷ pushes) ts rest),
    )

-- Each terminal is the one that a lookup by either of its identifiers finds.
abbrev IsFoundIn : List Terminal → Terminal → Type 0
IsFoundIn all_terminals t =
    (find_terminal (λ u. u.push_sdk_serial) t.push_sdk_serial all_terminals ≡ some t)
    × (find_terminal (λ u. u.serial_number) t.serial_number all_terminals ≡ some t)

found_later :
    (t : Terminal) (devices pushes : List String) (front ts : List Terminal)
    → All (IsNew (t.serial_number ∷ devices) (t.push_sdk_serial ∷ pushes)) ts
    → All (IsFoundIn front) ts
    → All (IsFoundIn (t ∷ front)) ts
unfolding seen find_terminal
found_later t devices pushes front [] new found = tt
found_later t devices pushes front (u ∷ ts) new found =
    ground (arith, found_later t devices pushes front ts new.1 found.1)

terminals-IsFoundIn :
    (i : ℕ) (devices pushes : List String) (ts : List Terminal)
    → validate_terminals i devices pushes ts ≡ ok tt
    → All (IsFoundIn ts) ts
unfolding find_terminal
terminals-IsFoundIn i devices pushes [] h = tt
terminals-IsFoundIn i devices pushes (t ∷ ts) h =
    let (first, rest) = split_ok i devices pushes t ts h in
    let devices' = t.serial_number ∷ devices in
    let pushes' = t.push_sdk_serial ∷ pushes in
    (
      (rw (eq_refl t.push_sdk_serial), rw (eq_refl t.serial_number)),
      found_later t devices pushes ts ts (terminals-IsNew (i + 1) devices' pushes' ts rest)
          (terminals-IsFoundIn (i + 1) devices' pushes' ts rest),
    )

validate_last : (c : Config) → validate c ≡ ok tt → validate_terminals 0 [] [] c.terminals ≡ ok tt
unfolding validate
validate_last c h = ground arith

-- Every terminal of a configuration that validation accepts is valid: its serials and user name are
-- not blank; its digest, version, intervals and the length of its password are within their bounds;
-- and the name of its password variable is a capital letter followed by capital letters, digits and
-- underscores.
pub validate-IsValidTerminal : (c : Config) → validate c ≡ ok tt → All IsValidTerminal c.terminals
validate-IsValidTerminal c h = terminals-IsValidTerminal 0 [] [] c.terminals (validate_last c h)

-- In a configuration that validation accepts, a lookup by the PushSDK serial or by the serial
-- number of any terminal finds that very terminal.
pub lookup_own_identifiers :
    (c : Config)
    → validate c ≡ ok tt
    → All
        (λ t.
          (terminal_by_push_sdk_serial c t.push_sdk_serial ≡ some t)
          × (terminal_by_serial_number c t.serial_number ≡ some t))
        c.terminals
unfolding terminal_by_push_sdk_serial terminal_by_serial_number
lookup_own_identifiers c h = terminals-IsFoundIn 0 [] [] c.terminals (validate_last c h)
