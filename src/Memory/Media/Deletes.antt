-- ===== src/Memory/Media/Deletes.antt =====
-- internal/store/memory/memory.go: the outbox events that delete objects
-- (appendMediaDeletesAt, appendExactMediaDeletesAt, memoryMediaDeleteNotBefore).
use clixor_backend.Prelude.{
  ℕ, zero, suc, ◌+◌, List, [], ◌∷◌, ◌++◌, if◌then◌else◌, ◌==◌, bytes_eq, exists, length, take,
}
use clixor_backend.Domain.{Uuid, Time, Bytes, Result, ok, err, after}
use clixor_backend.Domain.Chat.{of_media_delete}
use clixor_backend.MediaKey.{deletion_keys}
use clixor_backend.Memory.{Store}
use clixor_backend.Memory.Outbox.{append_outbox_at}

-- store.MediaDeleteBatchSize and store.MediaDeleteGrace
abbrev pub media_delete_batch_size : ℕ
media_delete_batch_size = 500

abbrev pub media_delete_grace : Time
media_delete_grace = 180_000_000_000

-- memoryMediaDeleteNotBefore
unfoldable pub media_delete_not_before : Time → Time → Time
media_delete_not_before now upload_valid_until =
    if after (upload_valid_until + media_delete_grace) (now + media_delete_grace)
    then upload_valid_until + media_delete_grace
    else now + media_delete_grace

-- keys, err := mediakey.DeletionKeys(objectKey); if err != nil { keys = []string{objectKey} }
unfoldable pub keys_to_delete : Bytes → Result (List Bytes) → List Bytes
keys_to_delete key (ok keys) = keys
keys_to_delete key (err e) = key ∷ []

-- The inner loop: the keys that were not seen yet, in order.
unfoldable pub add_unseen : List Bytes → List Bytes → List Bytes
add_unseen [] expanded = expanded
add_unseen (key ∷ keys) expanded =
    add_unseen keys (if exists (λ k. k == key) expanded then expanded else expanded ++ key ∷ [])

unfoldable pub expand_keys : List Bytes → List Bytes → List Bytes
unfolding add_unseen
expand_keys [] expanded = expanded
expand_keys (key ∷ keys) expanded =
    expand_keys keys (add_unseen (keys_to_delete key (deletion_keys key)) expanded)

abbrev pub drop_keys : ℕ → List Bytes → List Bytes
drop_keys zero ks = ks
drop_keys (suc n) [] = []
drop_keys (suc n) (k ∷ ks) = drop_keys n ks

-- The event of one batch; NewMediaDeletePayloadAt pairs the keys with the time.
unfoldable pub append_batch : Uuid → Time → Time → List Bytes → Store → Store
append_batch aggregate_id not_before now keys s =
    append_outbox_at "media.delete" aggregate_id (of_media_delete keys not_before) not_before now s

-- The loop over the batches; each round takes at least one key, so the number of keys is enough
-- fuel.
unfoldable pub append_batches : ℕ → Uuid → Time → Time → List Bytes → Store → Store
append_batches zero aggregate_id not_before now keys s = s
append_batches (suc fuel) aggregate_id not_before now [] s = s
append_batches (suc fuel) aggregate_id not_before now (k ∷ ks) s =
    append_batches fuel aggregate_id not_before now (drop_keys media_delete_batch_size (k ∷ ks))
      (append_batch aggregate_id not_before now (take media_delete_batch_size (k ∷ ks)) s)

-- appendExactMediaDeletesAt
unfoldable pub append_exact_media_deletes_at : Uuid → List Bytes → Time → Time → Store → Store
append_exact_media_deletes_at aggregate_id keys not_before now s =
    append_batches (length keys) aggregate_id not_before now keys s

-- appendMediaDeletesAt
unfoldable pub append_media_deletes_at : Uuid → List Bytes → Time → Time → Store → Store
append_media_deletes_at aggregate_id keys not_before now s =
    append_exact_media_deletes_at aggregate_id (expand_keys keys []) not_before now s
