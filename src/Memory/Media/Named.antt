-- ===== src/Memory/Media/Named.antt =====
-- internal/store/memory/memory.go: which keys appendMediaDeletesAt deletes for one object key.
use clixor_backend.Prelude.{
  ◌≡◌, refl, subst, List, [], ◌∷◌, ◌++◌, Bool, true, not, ◌||◌, ◌==◌, nat_eq, bytes_eq, arith,
  exists, false, ltb, length, sym, Bool-cases, inl, inr,
}
use clixor_backend.Map.Laws.{beq_refl}
use clixor_backend.Domain.{Bytes, Result, ok, err}
use clixor_backend.MediaKey.{
  deletion_keys, keys_from, both_keys, published, published_of, published_prefix, valid_key,
}
use clixor_backend.Text.{has_prefix, trim_prefix}
use clixor_backend.Memory.Media.Deletes.{expand_keys, add_unseen, keys_to_delete}

-- Whatever mediakey.DeletionKeys answers, the key itself is deleted.
named_from :
    (key : Bytes) (r : Result Bytes)
    → exists (λ k. k == key) (add_unseen (keys_to_delete key (keys_from key r)) []) ≡ true
unfolding add_unseen keys_to_delete keys_from both_keys
named_from key (err e) = ground (arith, beq_refl key)
named_from key (ok pub_key) = ground (arith, beq_refl key)

pub expand_keys_named : (key : Bytes) → exists (λ k. k == key) (expand_keys (key ∷ []) []) ≡ true
unfolding expand_keys deletion_keys
expand_keys_named key = named_from key (published key)

unseen_both :
    (a b : Bytes)
    → (exists (λ k. k == a) (add_unseen (a ∷ b ∷ []) []) ≡ true)
      × (exists (λ k. k == b) (add_unseen (a ∷ b ∷ []) []) ≡ true)
unfolding add_unseen
unseen_both a b = (ground (arith, beq_refl a, beq_refl b), ground (arith, beq_refl a, beq_refl b))

-- A key without the prefix of published keys has its published form deleted too, unless the key is
-- invalid or that form is too long.
abbrev pub published_too : Bytes → List Bytes → Bool
published_too key keys =
    exists (λ k. k == published_prefix ++ key) keys
    || has_prefix key published_prefix
    || not (valid_key key)
    || ltb 1024 (length (published_prefix ++ key))

-- A published key has its staging form deleted too, unless one of the two is invalid.
abbrev pub staging_too : Bytes → List Bytes → Bool
staging_too key keys =
    exists (λ k. k == trim_prefix key published_prefix) keys
    || not (has_prefix key published_prefix)
    || not (valid_key key)
    || not (valid_key (trim_prefix key published_prefix))

unless_excepted :
    (named prefixed valid long : Bool)
    → (prefixed ≡ false → valid ≡ true → long ≡ false → named ≡ true)
    → (named || prefixed || not valid || long) ≡ true
unless_excepted true prefixed valid long h = refl
unless_excepted false true valid long h = refl
unless_excepted false false false long h = refl
unless_excepted false false true true h = refl
unless_excepted false false true false h = h refl refl refl

module _ (key : Bytes) (valid : valid_key key ≡ true) where
  names_published :
      has_prefix key published_prefix ≡ false
      → ltb 1024 (length (published_prefix ++ key)) ≡ false
      → exists (λ k. k == published_prefix ++ key) (expand_keys (key ∷ []) []) ≡ true
  unfolding expand_keys deletion_keys keys_from both_keys published published_of keys_to_delete
  names_published plain fits = elim (Bool-cases (published_prefix ++ key == key)) [
    | inr d ↦ rw (valid, plain, fits, d) (unseen_both key (published_prefix ++ key)).1
    | inl d ↦
        subst (λ k. exists (λ x. x == k) (expand_keys (key ∷ []) []) ≡ true)
          (sym ((bytes_eq.beq_iff (published_prefix ++ key) key).0 d)) (expand_keys_named key)
  ]

  names_staging :
      has_prefix key published_prefix ≡ true
      → valid_key (trim_prefix key published_prefix) ≡ true
      → exists (λ k. k == trim_prefix key published_prefix) (expand_keys (key ∷ []) []) ≡ true
  unfolding expand_keys deletion_keys keys_from both_keys published published_of keys_to_delete
  names_staging prefixed valid_staging =
      rw (valid, prefixed, beq_refl key, valid_staging)
        (unseen_both (trim_prefix key published_prefix) key).0

pub expand_keys_published : (key : Bytes) → published_too key (expand_keys (key ∷ []) []) ≡ true
expand_keys_published key =
    unless_excepted _ _ _ _ (λ plain valid fits. names_published key valid plain fits)

pub expand_keys_staging : (key : Bytes) → staging_too key (expand_keys (key ∷ []) []) ≡ true
expand_keys_staging key =
    unless_excepted _ _ _ _
      (λ prefixed valid staging. names_staging key valid (ground arith) (ground arith))
