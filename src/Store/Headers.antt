-- ===== src/Store/Headers.antt =====
-- model/model.go: EncodeHeaders and DecodeHeaders. The JSON codec of Go's library is a parameter.
use tenpm_uptime_monitor.Prelude.{◌≡◌, Option, none, some, [], ◌∷◌, ◌≢◌, arith}
use tenpm_uptime_monitor.Prelude.Text.{Text}
use tenpm_uptime_monitor.Model.Check.{Headers}
use tenpm_uptime_monitor.Store.Tables.{Res, ok, err, bad_headers}

-- json.Marshal and json.Unmarshal on a map of strings.
pub record Codec : Type 0 where
  pub marshal : Headers → Option Text
  pub unmarshal : Text → Option Headers

abbrev pub from_option {ℓ} : {A : Type ℓ} → Option A → Res A
from_option none = err bad_headers
from_option (some a) = ok a

unfoldable pub encode_headers : Codec → Headers → Res Text
encode_headers codec [] = ok []
encode_headers codec (h ∷ hs) = from_option (codec.marshal (h ∷ hs))

unfoldable pub decode_headers : Codec → Text → Res Headers
decode_headers codec [] = ok []
decode_headers codec (c ∷ s) = from_option (codec.unmarshal (c ∷ s))

-- Headers that are encoded decode to themselves, if the codec reads its own non-empty output back.
pub decode_headers-encode :
    (codec : Codec) (h : Headers) (raw : Text)
    → encode_headers codec h ≡ ok raw
    → ((s : Text) → codec.marshal h ≡ some s → (s ≢ []) × (codec.unmarshal s ≡ some h))
    → decode_headers codec raw ≡ ok h
unfolding encode_headers decode_headers
decode_headers-encode codec [] [] e law = ground arith
decode_headers-encode codec [] (c ∷ s) e law = ground arith
decode_headers-encode codec (h ∷ hs) [] e law = ground (arith, law [])
decode_headers-encode codec (h ∷ hs) (c ∷ s) e law = ground (arith, law (c ∷ s))
