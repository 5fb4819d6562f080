-- ===== src/Examples/Texts.antt =====
-- Texts, the output of commands, and the environment.
use cf_herdr_poc.Base.{
  Bytes, codes, ◌≡◌, List, [], ◌∷◌, arith, length, All, if◌then◌else◌, ltb, ◌++◌, ◌-◌,
}
use cf_herdr_poc.Sanitize.{IsPrintable}
use cf_herdr_poc.Runner.{
  write_all, new_buffer, output, concat, last, truncation_marker, write_all-output,
}
use cf_herdr_poc.Environment.{Runtime}

abbrev plain : Bytes → Bytes
plain s = s

ok_IsPrintable : All IsPrintable (codes "ok")
ok_IsPrintable =
    ((omega arith, λ h. absurd (omega arith)), ((omega arith, λ h. absurd (omega arith)), tt))

abbrev chunks : List Bytes
chunks = codes "0123456789012345678901234567890" ∷ codes "abc" ∷ codes "def" ∷ []

write_all-output_example : output (write_all chunks (new_buffer 36)) ≡ (
    if ltb 36 (length (concat chunks))
    then truncation_marker ++ last (36 - length truncation_marker) (concat chunks)
    else concat chunks)
write_all-output_example = write_all-output 36 chunks (omega arith)

abbrev runtime : Runtime
runtime = record {
  plugin_root = "";
  config_dir = "/etc/herdr";
  state_dir = "/var/herdr";
  socket_path = "";
  host = "127.0.0.1";
  port = "8787";
  pack_transport = "https";
}

abbrev base : List Bytes
base = codes "PATH=/bin" ∷ codes "COLLIE_HOST=0.0.0.0" ∷ codes "HERDR_SOCKET_PATH=/tmp/s" ∷ []
