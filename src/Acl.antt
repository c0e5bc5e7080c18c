-- ===== src/Acl.antt =====
-- src/acl.go: the topic rules for devices.
pub mod Topic
pub mod Allowed
mod Tests
use mapex_mqttbroker.Common.{
  ℕ, Bool, false, not, ◌||◌, List, [], ◌∷◌, Option, none, some, Bytes, codes, same, is_empty,
  if◌then◌else◌,
}
use mapex_mqttbroker.Common.Int.{ℤ, is_int}
use mapex_mqttbroker.GoText.{contains_rune, split_n}

abbrev pub access_read : ℕ
access_read = 1

abbrev pub access_write : ℕ
access_write = 2

abbrev pub access_subscribe : ℕ
access_subscribe = 4

abbrev pub access_unsubscribe : ℕ
access_unsubscribe = 8

abbrev pub topic_prefix_events : Bytes
topic_prefix_events = codes "events"

abbrev pub topic_prefix_commands : Bytes
topic_prefix_commands = codes "commands"

-- `("", false)` is `none`.
unfoldable pub parse_username : Bytes → Option Bytes
parse_username username =
    if is_empty username then none else if contains_rune username b':' then none else some username

-- `parts[0], parts[1]`, if `len(parts) >= 2` and neither is empty.
first_two : List Bytes → Option (Bytes × Bytes)
first_two [] = none
first_two (_ ∷ []) = none
first_two (prefix ∷ asset_uuid ∷ _) =
    if is_empty prefix || is_empty asset_uuid then none else some (prefix, asset_uuid)

unfoldable pub parse_topic : Bytes → Option (Bytes × Bytes)
unfolding first_two
parse_topic topic = if is_empty topic then none else first_two (split_n topic b'/' 3)

-- The switch on the prefix.
may_access : Bytes → ℤ → Bool
may_access prefix acc =
    if same prefix topic_prefix_events
    then is_int acc access_write
    else if same prefix topic_prefix_commands
    then is_int acc access_read || is_int acc access_subscribe
    else false

unfoldable pub check_acl : Bytes → Bytes → ℤ → Bool
unfolding may_access
check_acl username topic acc = elim (parse_username username) [
  | none ↦ false
  | some asset_uuid ↦ elim (parse_topic topic) [
    | none ↦ false
    | some (prefix, t_asset) ↦
        if not (same t_asset asset_uuid) then false else may_access prefix acc
  ]
]
