-- ===== src/SignTool/Keygen.antt =====
-- `keygen` of cmd/sshhub-sign/main.go, and its keys at the tool and at a hub.
use sshhub.Base.Results.{ok}
use sshhub.Base.{
  ℕ, ◌≡◌, refl, sym, ap, subst, false, List, [], Option, none, some, length, nat_eq, arith,
}
use sshhub.Base.Dict.{Dict}
use sshhub.Text.{Str, is_empty, trim_space, trim_left, trim_right, to_lower}
use sshhub.Release.{Codec, SignedManifest, private_key_size, public_key_size}
use sshhub.Release.Key.{parse_public_key, trusted_key}
use sshhub.Release.RoundTrip.{CodecLaws}
use sshhub.SignTool.{
  Options, Entry, collect, raw_key, decode_key, load_private_key, manifest_of, make_manifest,
}
use sshhub.SignTool.Written.{Distinct, Good, make_manifest-Good}

-- The two texts that are printed, first the private key, of the pair (public, private) that
-- `ed25519.GenerateKey` gives; `none` for its error.
unfoldable pub keygen : Codec → Option (Str × Str) → Option (Str × Str)
keygen c none = none
keygen c (some (public, private)) = some (c.encode64 private, c.encode64 public)

-- What is relied on of base64 and of the sizes of an Ed25519 pair.
pub record PairLaws (c : Codec) (public private : Str) : Type 0 where
  pub base64 : (s : Str) → c.decode64 (c.encode64 s) ≡ some s
  -- Base64 has no white space, and no text only for no bytes.
  pub private_spaceless : trim_space (c.encode64 private) ≡ c.encode64 private
  pub public_spaceless : trim_space (c.encode64 public) ≡ c.encode64 public
  pub private_full : is_empty (c.encode64 private) ≡ false
  pub public_full : is_empty (c.encode64 public) ≡ false
  pub private_size : length private ≡ private_key_size
  pub public_size : length public ≡ public_key_size

keygen-load_private_key :
    (c : Codec) (public private : Str) (content : Option Str)
    → PairLaws c public private
    → load_private_key c [] (c.encode64 private) content ≡ ok private
unfolding load_private_key raw_key decode_key
keygen-load_private_key c public private content laws =
    let back = laws.base64 private in
    let same = laws.private_spaceless in
    let full = laws.private_full in let size = laws.private_size in ground arith

keygen-parse_public_key :
    (c : Codec) (public private : Str)
    → PairLaws c public private
    → parse_public_key c (c.encode64 public) ≡ ok public
unfolding parse_public_key
keygen-parse_public_key c public private laws =
    let back = laws.base64 public in
    let same = laws.public_spaceless in
    let full = laws.public_full in let size = laws.public_size in ground arith

-- A key pair of `keygen`, from its printing to a hub's check. The private text, given in the
-- environment, is the signing key; the public text is the trusted key of a hub that it is compiled
-- into, and of a hub where the operator pins it; and a manifest that the tool makes with the first is
-- good at the second. The names in the directory are different; digests are in lower case, the
-- encoder of the signed manifest is read back, and the laws of base64, of the codec and of the key
-- pair hold.
pub keygen-Good :
    (c : Codec) (encode : SignedManifest → Option Str) (o : Options)
    (public private private_text public_text text : Str) (content : Option Str) (es : List Entry)
    (now : ℕ)
    → Path
        (Option (Str × Str))
        (keygen c (some (public, private)))
        (some (private_text, public_text))
    → o.key_file ≡ []
    → make_manifest c encode o private_text content (some es) now ≡ ok text
    → PairLaws c public private
    → Distinct es
    → ((s : Str) → to_lower (c.sha256_hex s) ≡ c.sha256_hex s)
    → ((sm : SignedManifest) (t : Str) → encode sm ≡ some t → c.decode_signed t ≡ some sm)
    → ((artifacts : Dict Str Str)
        → collect c es [] ≡ ok artifacts
        → CodecLaws c (manifest_of c o now artifacts) private public)
    → (load_private_key c [] private_text content ≡ ok private)
      × (trusted_key c [] public_text ≡ some public)
      × ((compiled : Str) → trusted_key c public_text compiled ≡ some public)
      × Good c o es text public
unfolding keygen trusted_key trim_space trim_left trim_right
keygen-Good c encode o public private private_text public_text text content es now printed env made
      pair apart lower reads laws =
    let first : c.encode64 private ≡ private_text =
      ap (λ (x : Option (Str × Str)). private_of x) printed in
    let second : c.encode64 public ≡ public_text =
      ap (λ (x : Option (Str × Str)). public_of x) printed in
    let loaded : load_private_key c [] private_text content ≡ ok private =
      subst (λ t. load_private_key c [] t content ≡ ok private) first
        (keygen-load_private_key c public private content pair) in
    let parsed : parse_public_key c public_text ≡ ok public =
      subst (λ t. parse_public_key c t ≡ ok public) second
        (keygen-parse_public_key c public private pair) in
    let full : is_empty public_text ≡ false =
      subst (λ t. is_empty t ≡ false) second pair.public_full in
    let spaceless : trim_space public_text ≡ public_text =
      subst (λ t. trim_space t ≡ t) second pair.public_spaceless in
    (
      loaded,
      no_pin full parsed,
      λ compiled. ground (arith, parsed, full, spaceless),
      make_manifest-Good c encode o private_text text private public content es now made
          (subst (λ f. load_private_key c f private_text content ≡ ok private) (sym env) loaded)
          apart lower reads laws,
    )
  where
    no_pin :
        is_empty public_text ≡ false
        → parse_public_key c public_text ≡ ok public
        → trusted_key c [] public_text ≡ some public
    no_pin full parsed = rw (full, parsed) refl

    private_of : Option (Str × Str) → Str
    private_of none = []
    private_of (some (x, y)) = x

    public_of : Option (Str × Str) → Str
    public_of none = []
    public_of (some (x, y)) = y
