-- ===== src/Health/LocalKey.antt =====
-- messk/src/lib/localKeyStatus.ts
use messk.Prelude.{
  ℕ, ◌-◌, ◌≤◌, ◌==◌, Bool, not, List, [], ◌∷◌, ◌++◌, Text, codes, decimal, any, drop, length,
  length-drop, length-append, ltb, if◌then◌else◌, if-property, arith,
}

pub data ItemTone : Type 0 where
  ok warn neutral : ItemTone

-- `autoLockMinutes` is a natural number here.
pub record LocalKeyStatusInput : Type 0 where
  pub has_unlocked_identity : Bool
  pub has_pin : Bool
  pub is_identity_remembered : Bool
  pub auto_lock_minutes : ℕ
  pub database_name : Text

pub record LocalKeyStatusItem : Type 0 where
  pub id : Text
  pub label : Text
  pub value : Text
  pub tone : ItemTone
  pub detail : Text

-- `slice(-8)`
unfoldable pub last_8 : Text → Text
last_8 s = drop (length s - 8) s

unfoldable pub format_database_scope : Text → Text
format_database_scope database_name =
    if not (any (λ c. c == b'-') database_name)
    then codes "Default local vault"
    else codes "Identity-scoped vault (..." ++ (last_8 database_name ++ codes ")")

unfoldable pub build_local_key_status : LocalKeyStatusInput → List LocalKeyStatusItem
build_local_key_status input =
    record {
      id = codes "identity";
      label = codes "Identity key";
      value =
          if input.has_unlocked_identity
          then codes "Unlocked in memory"
          else codes "Locked or not loaded";
      tone = if input.has_unlocked_identity then ok else warn;
      detail =
          codes
            "The seed phrase and raw secret are not shown here. Lock or panic reset this browser if the device is shared.";
    }
    ∷ (record {
      id = codes "pin";
      label = codes "PIN lock";
      value = if input.has_pin then codes "Enabled" else codes "Disabled";
      tone = if input.has_pin then ok else warn;
      detail =
          if input.has_pin
          then codes "Auto-lock can protect the current browser session after inactivity."
          else codes "Set a PIN before relying on local session protection.";
    }
        ∷ (record {
          id = codes "restore";
          label = codes "Device restore";
          value =
              if input.is_identity_remembered
              then codes "PIN restore ready"
              else codes "Seed required on restart";
          tone = if input.is_identity_remembered then ok else neutral;
          detail =
              if input.is_identity_remembered
              then codes "An encrypted identity envelope is stored locally and requires the PIN."
              else codes
                  "This browser will need the seed phrase again after restart or panic reset.";
        }
            ∷ (record {
              id = codes "database";
              label = codes "Local database";
              value = format_database_scope input.database_name;
              tone = neutral;
              detail =
                  codes
                    "Local message, contact and session records are scoped to this browser profile.";
            }
                ∷ (record {
                  id = codes "autolock";
                  label = codes "Auto-lock";
                  value =
                      if ltb 0 input.auto_lock_minutes
                      then decimal input.auto_lock_minutes ++ codes " minutes"
                      else codes "Disabled";
                  tone = if ltb 0 input.auto_lock_minutes then ok else warn;
                  detail =
                      if ltb 0 input.auto_lock_minutes
                      then codes "The app locks after inactivity while a PIN is configured."
                      else codes "No inactivity lock is configured.";
                }
                    ∷ []))))

-- What is shown of a database's name has at most 35 characters, 8 of them of the name.
pub length-format_database_scope : (name : Text) → length (format_database_scope name) ≤ 35
unfolding format_database_scope last_8
length-format_database_scope name =
    if-property (λ t. length t ≤ 35) (not (any (λ c. c == b'-') name)) (codes "Default local vault")
      (codes "Identity-scoped vault (..." ++ (drop (length name - 8) name ++ codes ")"))
      (λ _. omega arith)
      (λ _. omega (
        arith,
        length-append (drop (length name - 8) name) (codes ")"),
        length-drop (length name - 8) name,
      ))
