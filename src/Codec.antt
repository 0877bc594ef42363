-- ===== src/Codec.antt =====
-- What the engine uses of `json` and `hashlib`, as an interface: the encoder without its final
-- newline, the decoder with the hooks of its callers, and the hexadecimal digest of a byte string.
-- benchhandoff/storage.py: `canonical_json_bytes`.
use benchhandoff.Prelude.{
  ℕ, ◌≡◌, String, false, Option, none, some, List, [], ◌∷◌, ◌++◌, contains, nat_eq, is_nil,
}
use benchhandoff.Errors.{Result, ok, err, evidence_error}
use benchhandoff.Json.{Json}

abbrev pub Bytes : Type 0
Bytes = List ℕ

abbrev pub newline : ℕ
newline = 10

-- `dumps` gives none where `json.dumps` raises, and `loads` none where the decoder or one of its
-- hooks does.
pub record Codec : Type 0 where
  pub dumps : Json → Option Bytes
  pub loads : Bytes → Option Json
  pub sha256 : Bytes → String

module _ (c : Codec) where
  unfoldable pub canonical_json_bytes : Json → Result Bytes
  canonical_json_bytes value = elim (c.dumps value) [
    | none ↦ err evidence_error
    | some text ↦ ok (text ++ newline ∷ [])
  ]

  -- The documented behaviour of `json` at one value: its text is one line, and decodes to it.
  pub record RoundTrips (value : Json) : Type 0 where
    pub text : Bytes
    pub dumped : c.dumps value ≡ some text
    pub loaded : c.loads (text ++ newline ∷ []) ≡ some value
    pub one_line : contains text newline ≡ false
    pub not_blank : is_nil text ≡ false

  pub canonical_json_bytes-RoundTrips :
      (value : Json) (trip : RoundTrips value)
      → canonical_json_bytes value ≡ ok (trip.text ++ newline ∷ [])
  unfolding canonical_json_bytes
  canonical_json_bytes-RoundTrips value trip = rw (trip.dumped, canonical_json_bytes)
