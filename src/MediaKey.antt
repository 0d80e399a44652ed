-- ===== src/MediaKey.antt =====
-- internal/mediakey/key.go: object keys, staging and published.
use clixor_backend.Prelude.{
  ℕ, List, [], ◌∷◌, ◌++◌, Bool, not, ◌&&◌, ◌||◌, if◌then◌else◌, ◌==◌, nat_eq, bytes_eq, ltb, length,
  exists,
}
use clixor_backend.Text.{has_prefix, trim_prefix, trim_space, valid_utf8}
use clixor_backend.Domain.{Bytes, Result, ok, err, other_error}

-- PublishedPrefix
abbrev pub published_prefix : Bytes
published_prefix = b'p' ∷ b'u' ∷ b'b' ∷ b'l' ∷ b'i' ∷ b's' ∷ b'h' ∷ b'e' ∷ b'd' ∷ b'/' ∷ []

abbrev pub max_object_key_bytes : ℕ
max_object_key_bytes = 1024

-- character < 0x20 || character == 0x7f
abbrev pub control : ℕ → Bool
control c = ltb c 32 || c == 127

-- Validate returns nil.
unfoldable pub valid_key : Bytes → Bool
valid_key key =
    not (key == [])
    && not (ltb max_object_key_bytes (length key))
    && valid_utf8 key
    && not (has_prefix key (b'/' ∷ []))
    && trim_space key == key
    && not (exists control key)

unfoldable pub published_of : Bytes → Result Bytes
published_of key =
    if has_prefix key published_prefix
    then ok key
    else if ltb max_object_key_bytes (length (published_prefix ++ key))
    then err (other_error "published media object key is too long")
    else ok (published_prefix ++ key)

-- Published
unfoldable pub published : Bytes → Result Bytes
unfolding published_of
published key =
    if valid_key key then published_of key else err (other_error "media object key is invalid")

unfoldable pub both_keys : Bytes → Bytes → Result (List Bytes)
both_keys key pub_key =
    if pub_key == key
    then (if valid_key (trim_prefix key published_prefix)
        then ok (trim_prefix key published_prefix ∷ key ∷ [])
        else err (other_error "media object key is invalid"))
    else ok (key ∷ pub_key ∷ [])

unfoldable pub keys_from : Bytes → Result Bytes → Result (List Bytes)
unfolding both_keys
keys_from key (err e) = err e
keys_from key (ok pub_key) = both_keys key pub_key

-- DeletionKeys
unfoldable pub deletion_keys : Bytes → Result (List Bytes)
unfolding keys_from
deletion_keys key = keys_from key (published key)
