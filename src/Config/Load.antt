-- ===== src/Config/Load.antt =====
-- `Load` of internal/config/config.go: a file as it is read, parsed and checked. The file's content and the
-- YAML decoder are arguments.
use sshhub.Base.Results.{ok, err, ◌>>=◌, or_fail, bind_inv, or_fail_inv, err-ne-ok, from_ok}
use sshhub.Base.Results
use sshhub.Base.{◌≡◌, ap, Option, some}
use sshhub.Base.Int.{ℤ}
use sshhub.Text.{Str}
use sshhub.Config.{Config}
use sshhub.Config.Validate.{ParsedKey, Invalid, validate}

pub data LoadError : Type 0 where
  cannot_read cannot_parse : LoadError
  invalid : Invalid → LoadError

unfoldable pub or_invalid : Results.Result Invalid Config → Results.Result LoadError Config
or_invalid (err e) = err (invalid e)
or_invalid (ok c) = ok c

module _ (decode : Str → Option Config) (parse_key : Str → Option ParsedKey)
    (parse_duration : Str → Option ℤ) where
  unfoldable pub load : Option Str → Results.Result LoadError Config
  load content = do
    text ← or_fail content cannot_read
    c ← or_fail (decode text) cannot_parse
    or_invalid (validate parse_key parse_duration c)

  or_invalid-ok : (r : Results.Result Invalid Config) (c : Config) → or_invalid r ≡ ok c → r ≡ ok c
  unfolding or_invalid
  or_invalid-ok (err e) c h = absurd (err-ne-ok h)
  or_invalid-ok (ok c') c h = ap ok (from_ok h)

  pub load_inv :
      (content : Option Str) (c : Config)
      → load content ≡ ok c
      → (text : Str) × (raw : Config) × (content ≡ some text)
        × (decode text ≡ some raw)
        × (validate parse_key parse_duration raw ≡ ok c)
  unfolding load
  load_inv content c h =
      let (text, has, h1) = or_fail_inv content _ _ h in
      let (raw, parsed, h2) = or_fail_inv (decode text) _ _ h1 in
      (text, raw, has, parsed, or_invalid-ok (validate parse_key parse_duration raw) c h2)
