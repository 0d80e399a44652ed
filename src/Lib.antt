-- ===== src/Lib.antt =====
-- Verification of the Clixor backend's in-memory services: the store of internal/store/memory, the
-- rate limiter of internal/ratelimit, the presence service of internal/presence, the mail worker of
-- internal/mail, the token manager of internal/auth, the event bus of internal/events and the
-- compliance inbox of internal/compliance.
--
-- The program. The HTTP API calls a store; the store keeps accounts, devices, sessions, chats and
-- three durable queues: the transactional outbox, the mail queue and the push queue. Workers claim
-- batches of a queue, hand each row to a transport and record the outcome. The memory store is the
-- implementation of the store's contract that runs without PostgreSQL.
--
-- Files and the code they model.
--   Domain (Chat, Delivery, Media)          internal/domain/models.go, internal/domain/device.go
--   Memory                                  internal/store/memory/memory.go: type Store, New
--   Memory/Outbox (Deliver, Prune)          memory.go: LockOutboxBatch, lockOutboxBatch,
--     DeliverRealtimeOutbox, ReleaseOutboxEvent, MarkOutboxPublished, PrunePublishedOutbox,
--     appendOutbox, appendOutboxAt
--   Memory/Users (Identity, Profile)        memory.go: CreateUser, UserByID, UserByEmail,
--     UserByPhone, UsersByPhones, UsersByUsernames, SearchUsersByUsername, UserByExternalIdentity,
--     LinkExternalIdentity, AgeAssurance, UpsertAgeAssurance, UpdateUserProfile,
--     UpdateUserPhone, profileUsername, normalizeUsernameMemory
--   Memory/Devices                          memory.go: UpsertDevice, Device, ListDevices,
--     ClearDevicePushToken
--   Memory/PreKeys                          memory.go: PutOneTimePreKeys, ClaimPreKeys
--   Memory/Sessions                         memory.go: CreateSession, IssueSession, RotateSession,
--     RevokeSession, SessionActive, equalTokenHash
--   Memory/Invites                          memory.go: CreateConversationInvite,
--     ConversationInvitePreview, RevokeConversationInvite, conversationInviteActiveError
--   Memory/Messages                         memory.go: CreateMessage, ListMessages,
--     UpsertReceipt, memberIDs
--   Memory/Ownership                        memory.go: TransferConversationOwnership
--   Memory/Media (Deletes, Verify, Remove)  memory.go: CreateMedia, CreateProfileMedia,
--     createMediaLocked, Media, PersistMediaUploadCapability, MediaUploadCapability,
--     authorizeMediaMutationLocked, ClaimMediaVerification, MarkMediaReady,
--     ReleaseMediaVerification, RejectMediaVerification, RejectPendingMedia, DeleteMedia,
--     ExpirePendingMedia, appendMediaDeletesAt, appendExactMediaDeletesAt,
--     memoryMediaDeleteNotBefore, profileMediaID, setProfileMediaReference; the reservation limits
--     of internal/store/store.go and the batch size and grace of internal/store/account.go
--   Memory/Push (Deliver, Settle)           memory.go: EnqueuePushDeliveries,
--     LockPushDeliveryBatch, WithPushDeliveryLease, FinishPushDelivery, InvalidatePushDelivery,
--     PrunePushDeliveries
--   Memory/PasswordReset (Consume, Methods) internal/store/memory/password_reset.go
--   Memory/Mail (Prune)                     internal/store/memory/mail_delivery.go
--   Compliance, Compliance/Cases            internal/compliance/memory.go
--   Compliance/Model, Compliance/Release    internal/compliance/model.go
--   Auth                                    internal/auth/tokens.go: IssueWithDevice, Refresh, pair,
--     parseRefreshToken
--   Events                                  internal/events/memory.go
--   MediaKey                                internal/mediakey/key.go
--   Mailer                                  internal/mail/queue.go: QueueCipher, and validMailbox of
--     internal/mail/smtp.go
--   Mailer/Retry, Mailer/Worker             internal/mail/worker.go
--   RateLimit                               internal/ratelimit/limiter.go: Memory.Allow
--   Presence                                internal/presence/presence.go: Memory
--   Prelude, Map, Text, Leases              tests on numbers, Go's maps, package strings, and the
--     claim loop that the mail and push queues share
--   Presence/History                        the specification that Presence refines
--   The other files of a directory prove what their names say; the Examples run the theorems on
--   concrete stores.
--
-- How the code corresponds to the model. A method takes the store and returns its result and the
-- new store. Each method holds the store's mutex from its first read to its last write, so a call
-- is one step; DeliverRealtimeOutbox and WithPushDeliveryLease, which release the mutex around
-- their callback, are three (begin_realtime, the callback, end_realtime, and the same for push),
-- and the callback is an argument that may change the store. The mail worker's goroutines run one
-- after the other. WithMailDeliveryLease reads its row and then runs its callback in the same way.
-- Mail builders and fences run under the mutex and are functions of their arguments. The two
-- delivery barriers order callbacks against writers and keep no data. The readings of time.Now() in
-- one call are one argument `now`; values of uuid.New() are arguments.
--
-- Representation. A UUID is the number of its bytes: uuid.Nil is 0 and the order of the canonical
-- strings is the order of the numbers. A time is in nanoseconds from the zero time 0; a pointer is
-- an option. An argument of type int or int64 that is tested against 1 is a natural number, every
-- value below 1 being 0. Counters step modulo 2^64. A map is a list of entries, the order of the
-- list standing for the order of `range`; a key that the source concatenates from fixed-width parts
-- is their tuple. A string that ranges over named constants is a data type, with one constructor
-- for every other string. strings.TrimSpace and strings.ToLower are written out for ASCII.
-- sort.Slice is an insertion sort; the orders it is given are total on ids, except by creation time
-- in ListDevices and by object key in ExpirePendingMedia. An outbox payload is what json.Marshal
-- was given. What the code takes from other packages is a parameter: uuid.Parse and the profile's
-- JSON (ProfileCodec, ProfileJson), the cipher, the payload's JSON and mail.ParseAddress
-- (MailLibrary), the sender's answers and the tests on its errors (MailEnv), UUID texts, digests
-- and signatures (TokenLibrary, CaseLibrary), addresses and URLs (ReleaseLibrary). Durations are
-- natural numbers below 2^63; the one product of them that can pass it, in retryDelay, wraps. Loops
-- are structural, except for the batches of appendExactMediaDeletesAt: their fuel is the number of keys, each round taking
-- at least one.
--
-- Not modelled: AcceptConversationInvite, the other methods on conversations and membership, the
-- listing of receipts, entities, chore rotation and account deletion (further components of
-- the same store); ParseAccess and the password hashes (golang-jwt and argon2); logging and metrics;
-- the PostgreSQL stores, Redis, NATS, the SMTP client, APNs, FCM, object stores and the HTTP layer
-- (external services and I/O).
pub mod Prelude
pub mod Map
pub mod Text
pub mod Leases
pub mod Domain
pub mod Memory
pub mod RateLimit
pub mod Presence
pub mod Compliance
pub mod MediaKey
pub mod Mailer
pub mod Auth
pub mod Events
