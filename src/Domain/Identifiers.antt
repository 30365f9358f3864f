-- ===== src/Domain/Identifiers.antt =====
-- `MessageId`, `ChannelSeq` and `ChannelScope` of crates/domain/src/lib.rs. A `Uuid` is a number
-- below 2^128; how the crate uuid reads a version and a variant out of it is a parameter. The
-- other identifiers wrap a `Uuid` and nothing else, so they are numbers here.
use fukulow.Common.{ℕ, String, Bool, true, false, ◌&&◌, Option, none, some, if◌then◌else◌}
use fukulow.Common.Int.{ℤ, pos, leb_ℤ}

abbrev pub Uuid : Type 0
Uuid = ℕ

-- `uuid::Version` and `uuid::Variant`, as far as the source names them.
pub data Version : Type 0 where
  sort_rand other : Version

pub data Variant : Type 0 where
  rfc4122 other : Variant

-- The two questions that the source puts to the crate uuid.
pub record UuidCrate : Type 0 where
  pub get_version : Uuid → Option Version
  pub get_variant : Uuid → Variant

abbrev is_sort_rand : Option Version → Bool
is_sort_rand (some Version.sort_rand) = true
is_sort_rand (some Version.other) = false
is_sort_rand none = false

abbrev is_rfc4122 : Variant → Bool
is_rfc4122 Variant.rfc4122 = true
is_rfc4122 Variant.other = false

pub record MessageId : Type 0 where
  pub value : Uuid

-- `MessageId::from_client`, which `TryFrom<Uuid>` calls too; `none` is `NotV7`.
unfoldable pub from_client : UuidCrate → Uuid → Option MessageId
from_client uuid value =
    if is_sort_rand (uuid.get_version value) && is_rfc4122 (uuid.get_variant value)
    then some (record { value = value })
    else none

abbrev pub as_uuid : MessageId → Uuid
as_uuid id = id.value

pub data ChannelScope : Type 0 where
  organization : ChannelScope
  team : ℕ → ChannelScope

-- `ChannelScope::as_str`
abbrev pub scope_as_str : ChannelScope → String
scope_as_str ChannelScope.organization = "organization"
scope_as_str (ChannelScope.team _) = "team"

-- An `i64`
pub record ChannelSeq : Type 0 where
  pub value : ℤ

abbrev pub beginning : ChannelSeq
beginning = record { value = pos 0 }

-- `ChannelSeq::new`, which `TryFrom<i64>` calls too; `none` is `InvalidChannelSeq`.
unfoldable pub new : ℤ → Option ChannelSeq
new value = if leb_ℤ (pos 1) value then some (record { value = value }) else none

abbrev pub get : ChannelSeq → ℤ
get seq = seq.value
