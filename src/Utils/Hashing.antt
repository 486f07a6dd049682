-- ===== src/Utils/Hashing.antt =====
-- app/utils/hashing.py. The serializer and the digest are third-party code, and so parameters.
use glacis.Base.{ℕ, ◌≡◌, Bool, true, List, Text, length}
use glacis.Core.Json.{Json}
use glacis.Core.Models.{no_nul, fits_jsonb}
use glacis.Core.Errors.{encode_error, Result, ok}
use glacis.Core.Session.{ensure, ◌>>◌}

-- `dumps` is `orjson.dumps(…, option=OPT_SORT_KEYS)`, of bytes, on the values that `serializes` says
-- it takes: it raises on a value that is nested too deep. `hexdigest` is that of SHA-256, which has 64
-- digits, none of them U+0000. `jsonb` is what a JSONB column gives back of a value: its numbers
-- and the order of its keys may be others, its texts are not.
pub record Hashing : Type 0 where
  pub serializes : Json → Bool
  pub dumps : Json → List ℕ
  pub hexdigest : List ℕ → Text
  pub length-hexdigest : (bytes : List ℕ) → length (hexdigest bytes) ≡ 64
  pub no_nul-hexdigest : (bytes : List ℕ) → no_nul (hexdigest bytes) ≡ true
  pub jsonb : Json → Json
  pub fits_jsonb-jsonb : (payload : Json) → fits_jsonb (jsonb payload) ≡ fits_jsonb payload

module _ (hashing : Hashing) where
  -- the digest of what is serialized
  unfoldable pub digest_of : Json → Text
  digest_of payload = hashing.hexdigest (hashing.dumps payload)

  unfoldable pub canonical_hash : Json → Result Text
  unfolding digest_of
  canonical_hash payload = do
    ensure (hashing.serializes payload) encode_error
    ok (digest_of payload)

  pub length-digest_of : (payload : Json) → length (digest_of payload) ≡ 64
  unfolding digest_of
  length-digest_of payload = hashing.length-hexdigest (hashing.dumps payload)

  pub no_nul-digest_of : (payload : Json) → no_nul (digest_of payload) ≡ true
  unfolding digest_of
  no_nul-digest_of payload = hashing.no_nul-hexdigest (hashing.dumps payload)
