-- ===== src/Codec/RoundTrip/Arrays.antt =====
-- `decodeArray` of packages/protocol/src/serialization.ts on the arrays of what a decoder reads back.
use hunsu.Base.{◌≡◌, refl, ℕ, suc, String, List, [], ◌∷◌}
use hunsu.Lists.{All}
use hunsu.Protocol.{ok, CanonicalJsonValue}
use hunsu.Codec.Values.{decode_array, decode_items, at_index}
use hunsu.Codec.Fields.{Decoder, decode_text, decode_id, decode_git_sha}
use hunsu.Codec.Canonical.{unknown_of, unknown_items}
use hunsu.Codec.Objects.{string, items_of, array_of}
use hunsu.Codec.Valid.{IsFilled, IsIdentifier, IsGitSha}

module _ {ℓ κ} {A : Type ℓ} (P : A → Type κ) (print : A → CanonicalJsonValue) (decode : Decoder A)
    (reads : (x : A) → P x → (path : String) → decode (unknown_of (print x)) path ≡ ok x) where
  decode_items-items_of :
      (xs : List A) (path : String) (index : ℕ)
      → All P xs
      → decode_items decode path index (unknown_items (items_of print xs)) ≡ ok xs
  unfolding unknown_of
  decode_items-items_of [] path index h = refl
  decode_items-items_of (x ∷ xs) path index (first, rest) =
      rw (reads x first (at_index path index), decode_items-items_of xs path (suc index) rest) refl

  pub decode_array-array_of :
      (xs : List A) (path : String)
      → All P xs
      → decode_array decode (unknown_of (array_of print xs)) path ≡ ok xs
  unfolding decode_array unknown_of
  decode_array-array_of xs path h = decode_items-items_of xs path 0 h

pub decode_text-string :
    (text : String)
    → IsFilled text
    → (path : String) → decode_text (unknown_of (string text)) path ≡ ok text
unfolding unknown_of
decode_text-string text h path = rw h refl

pub decode_id-string :
    (name text : String)
    → IsIdentifier text
    → (path : String) → decode_id name (unknown_of (string text)) path ≡ ok text
unfolding unknown_of
decode_id-string name text h path = rw h refl

pub decode_git_sha-string :
    (text : String)
    → IsGitSha text
    → (path : String) → decode_git_sha (unknown_of (string text)) path ≡ ok text
unfolding unknown_of
decode_git_sha-string text h path = rw h refl
