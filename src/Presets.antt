-- ===== src/Presets.antt =====
-- crates/common/src/policy.rs: the policies that the code offers by name, without the fields of the
-- feature `podms`.
use space.Prelude.{ℕ, true, false, Option, none, some, pos}
use space.Common.{
  Policy, EncryptionPolicy, disabled, xts_aes256, classical, default_layout, uncompressed, lz4,
  zstd,
}

unfoldable pub key_version : EncryptionPolicy → Option ℕ
key_version disabled = none
key_version (xts_aes256 v) = v

-- The default values of `Policy`.
abbrev pub default_policy : Policy
default_policy = record {
  compression = lz4 (pos 1);
  dedupe = true;
  compact_interval_secs = some 3600;
  erasure_profile = none;
  encryption = disabled;
  crypto_profile = classical;
  layout = default_layout;
}

abbrev pub text_optimized : Policy
text_optimized = record default_policy {
  compression = zstd (pos 3);
  compact_interval_secs = some 1800;
}

abbrev pub precompressed : Policy
precompressed = record default_policy {
  compression = uncompressed;
  dedupe = false;
  compact_interval_secs = some 7200;
}

abbrev pub edge_optimized : Policy
edge_optimized = record default_policy { dedupe = false; compact_interval_secs = none }

abbrev pub encrypted : Policy
encrypted = record default_policy { encryption = xts_aes256 none }

abbrev pub encrypted_compressed : Policy
encrypted_compressed = record default_policy {
  compression = zstd (pos 3);
  encryption = xts_aes256 none;
}
