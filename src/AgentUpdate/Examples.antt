-- ===== src/AgentUpdate/Examples.antt =====
-- An agent that is updated, and the theorem on the helper there.
use sshhub.Base.{ℕ, zero, suc, ◌≡◌, refl, true, false, List, [], ◌∷◌, none, some, ◌==◌, ℕ_discrete}
use sshhub.Base.Int.{pos, int_eq}
use sshhub.Text.{
  Str, codes, str_eq, fields, fields_from, is_space, has_prefix, trim_prefix, trim_space, trim_left,
  trim_right,
}
use sshhub.Text.Cut.{split, before, take}
use sshhub.Release.{Manifest, Codec, verify}
use sshhub.HubUpdate.Manifest.{fetch_verified_manifest, accept_manifest}
use sshhub.HubUpdate.Version.{
  is_newer, clean, compare_versions, parts, compare_parts, atoi, is_digit,
}
use sshhub.AgentUpdate.{
  Machine, updated, update_agent, consider, run_installer, held_back, current_agent_args, flags_of,
  carried, token_path, has_text,
}
use sshhub.AgentUpdate.Install.{InOrder, called, update_agent-InOrder}

repeat : ℕ → Str
repeat zero = []
repeat (suc n) = b'k' ∷ repeat n

abbrev sample : Manifest
sample = record {
  schema_version = pos 1;
  version = codes "0.9.1";
  published_at = 1;
  artifacts = (codes "a.tar.gz", codes "DATA") ∷ [];
  urgent = false;
  urgent_reason = [];
}

abbrev plain : Codec
plain = record {
  decode_signed = λ s. some (record { manifest = codes "body"; signature = codes "sig" });
  decode_manifest = λ s. some sample;
  encode_manifest = λ m. none;
  decode64 = λ s. some s;
  encode64 = λ s. s;
  decode_hex = λ s. none;
  verifies = λ key body sig. sig == codes "sig";
  signs = λ priv body. codes "sig";
  sha256_hex = λ s. s;
}

abbrev machine : Machine
machine = record {
  codec = plain;
  http = λ url. some (record { status = 200; body = codes "data" });
  trusted = some (repeat 32);
  latest = some (codes "v0.9.1", 100);
  version = codes "0.9.0";
  now = 200;
  unit = some (codes "/bin/a --hub h:7 --token-file /run/credentials/t ;");
  installs = λ args. true;
}

abbrev args : List Str
args =
    codes "--hub"
    ∷ codes "h:7"
    ∷ codes "--token-file"
    ∷ codes "/etc/sshhub-agent/token"
    ∷ codes "--version"
    ∷ codes "v0.9.1"
    ∷ []

installed : update_agent machine (pos 100) false ≡ updated args
unfolding update_agent consider run_installer held_back current_agent_args flags_of carried
    token_path has_text fields fields_from is_space has_prefix is_newer clean trim_space trim_left
    trim_right trim_prefix compare_versions parts split before compare_parts atoi is_digit
    fetch_verified_manifest accept_manifest verify repeat take str_eq int_eq ℕ_discrete
installed = refl

its_call : called (update_agent machine (pos 100) false) ≡ some args
its_call = rw installed refl

update_agent-InOrder_example : (false ≡ false) × InOrder machine (pos 100) args
update_agent-InOrder_example = update_agent-InOrder machine (pos 100) false args its_call
