-- ===== src/Format/Tests.antt =====
-- Formats of concrete values.
use sentinel_edr.Common.{◌≡◌, refl, some}
use sentinel_edr.Common.Text.{codes, decimal}
use sentinel_edr.Format.{ago, bytes, unit_index, response_label}

age_run : ago 7200000 (some 0) ≡ codes "2h ago"
unfolding decimal
age_run = refl

size_run : bytes (some 1536) ≡ codes "1.5 KB"
unfolding bytes unit_index decimal
size_run = refl

-- One byte short of a megabyte is rounded up to 1024 kilobytes.
rounded_run : bytes (some 1048575) ≡ codes "1024 KB"
unfolding bytes unit_index decimal
rounded_run = refl

label_run : response_label (codes "collect_memory") ≡ codes "Collect memory"
unfolding response_label
label_run = refl
