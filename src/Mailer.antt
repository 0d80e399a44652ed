-- ===== src/Mailer.antt =====
-- internal/mail/queue.go: the encrypted payload of a queued mail (QueueCipher.SealPasswordReset,
-- SealPasswordChanged, seal, open) and validMailbox of smtp.go. crypto/cipher, encoding/json and
-- net/mail are the parameter `lib`; texts are the lists of their bytes.
pub mod RoundTrip
pub mod Retry
pub mod Worker
pub mod Settles
mod Examples
use clixor_backend.Prelude.{
  ℕ, zero, suc, ◌+◌, ◌/◌, ◌%◌, Option, none, some, List, [], ◌∷◌, ◌++◌, Bool, true, false, not,
  ◌&&◌, ◌||◌, if◌then◌else◌, ◌==◌, nat_eq, bytes_eq, ltb, leb, length, take, exists,
}
use clixor_backend.Text.{trim_space}
use clixor_backend.Memory.PasswordReset.{same_purpose}
use clixor_backend.Domain.{Uuid, Time, Bytes, Result, ok, err, other_error}
use clixor_backend.Domain.Delivery.{
  MailDelivery, MailStatus, MailPurpose, password_reset, password_changed, other_purpose,
}

-- queuePayload; a version or a number of seconds below 0 is 0.
pub record QueuePayload : Type 0 where
  pub version : ℕ
  pub purpose : MailPurpose
  pub recipient : Bytes
  pub code : Bytes
  pub ttl_seconds : ℕ

-- The AEAD with its key (the arguments of `seal` and `unseal` are the nonce, the text and the
-- additional data), json.Marshal and json.Unmarshal on a payload, and the address that
-- mail.ParseAddress finds.
pub record MailLibrary : Type 0 where
  pub nonce_size : ℕ
  pub seal : Bytes → Bytes → Bytes → Bytes
  pub unseal : Bytes → Bytes → Bytes → Option Bytes
  pub encode : QueuePayload → Bytes
  pub decode : Bytes → Option QueuePayload
  pub parse_address : Bytes → Option Bytes

abbrev pub payload_version : ℕ
payload_version = 1

-- domain.MailDeliveryPasswordReset and MailDeliveryPasswordChanged; other texts are not sealed.
abbrev pub purpose_text : MailPurpose → Bytes
purpose_text password_reset =
    b'p' ∷ b'a' ∷ b's' ∷ b's' ∷ b'w' ∷ b'o' ∷ b'r' ∷ b'd' ∷ b'_' ∷ b'r' ∷ b'e' ∷ b's' ∷ b'e' ∷ b't'
    ∷ []
purpose_text password_changed =
    b'p' ∷ b'a' ∷ b's' ∷ b's' ∷ b'w' ∷ b'o' ∷ b'r' ∷ b'd' ∷ b'_' ∷ b'c' ∷ b'h' ∷ b'a' ∷ b'n' ∷ b'g'
    ∷ b'e' ∷ b'd' ∷ []
purpose_text other_purpose = []

-- mailQueueAADPrefix
abbrev pub aad_prefix : Bytes
aad_prefix =
    b'c' ∷ b'l' ∷ b'i' ∷ b'x' ∷ b'o' ∷ b'r' ∷ b':' ∷ b'm' ∷ b'a' ∷ b'i' ∷ b'l' ∷ b'-' ∷ b'q' ∷ b'u'
    ∷ b'e' ∷ b'u' ∷ b'e' ∷ b':' ∷ b'v' ∷ b'1' ∷ []

-- id[:] of a UUID, its `n` last bytes.
unfoldable pub uuid_bytes : ℕ → Uuid → Bytes
uuid_bytes zero id = []
uuid_bytes (suc n) id = uuid_bytes n (id / 256) ++ id % 256 ∷ []

-- mailQueueAAD
unfoldable pub mail_queue_aad : Uuid → Uuid → MailPurpose → Bytes
unfolding uuid_bytes
mail_queue_aad delivery_id challenge_id purpose =
    aad_prefix
    ++ 0 ∷ uuid_bytes 16 delivery_id
    ++ uuid_bytes 16 challenge_id
    ++ purpose_text purpose

abbrev pub valid_mail_purpose : MailPurpose → Bool
valid_mail_purpose other_purpose = false
valid_mail_purpose _ = true

unfoldable pub digits : Bytes → Bool
digits [] = true
digits (c ∷ cs) = not (ltb c b'0' || ltb b'9' c) && digits cs

unfoldable pub valid_reset_code : Bytes → Bool
unfolding digits
valid_reset_code code = not (ltb (length code) 6 || ltb 16 (length code)) && digits code

-- strings.Count(value, "@")
unfoldable pub count_at : Bytes → ℕ
count_at [] = 0
count_at (c ∷ cs) = let rest = count_at cs in if c == b'@' then suc rest else rest

unfoldable pub valid_mailbox : Bytes → Bool
unfolding count_at
valid_mailbox value =
    not (value == []) && not (exists (λ c. c == 13 || c == 10) value) && count_at value == 1

-- The bytes after the first `n`.
unfoldable pub bytes_from : ℕ → Bytes → Bytes
bytes_from zero bs = bs
bytes_from (suc n) [] = []
bytes_from (suc n) (b ∷ bs) = bytes_from n bs

-- The address, if it is one mailbox.
unfoldable pub mailbox : Option Bytes → Option Bytes
mailbox none = none
mailbox (some address) = if valid_mailbox address then some address else none

-- The switch at the end of open.
unfoldable pub valid_payload : QueuePayload → MailPurpose → Bool
valid_payload p password_reset =
    valid_reset_code p.code && not (ltb p.ttl_seconds 60 || ltb 3600 p.ttl_seconds)
valid_payload p password_changed = p.code == [] && p.ttl_seconds == 0
valid_payload p other_purpose = false

module _ (lib : MailLibrary) where
  unfoldable pub sealed : Uuid → Uuid → Bytes → Time → QueuePayload → MailDelivery
  unfolding mail_queue_aad
  sealed challenge_id delivery_id nonce now p = record {
    id = delivery_id;
    challenge_id = challenge_id;
    purpose = p.purpose;
    ciphertext =
        nonce ++ lib.seal nonce (lib.encode p) (mail_queue_aad delivery_id challenge_id p.purpose);
    status = MailStatus.pending;
    attempts = 0;
    next_attempt_at = now;
    lease_token = 0;
    locked_until = 0;
    created_at = now;
    delivered_at = none;
    dead_lettered_at = none;
    canceled_at = none;
    last_error_class = [];
  }

  unfoldable pub seal_for :
      Uuid → Uuid → Bytes → Time → QueuePayload → Option Bytes → Result MailDelivery
  unfolding sealed
  seal_for challenge_id delivery_id nonce now p none =
      err (other_error "invalid mail queue recipient")
  seal_for challenge_id delivery_id nonce now p (some address) =
      ok (sealed challenge_id delivery_id nonce now (record p { recipient = address }))

  -- seal; `delivery_id` is the value of uuid.New(), `nonce` what rand.Read filled in.
  unfoldable pub seal_payload : Uuid → Uuid → Bytes → Time → QueuePayload → Result MailDelivery
  unfolding seal_for mailbox
  seal_payload challenge_id delivery_id nonce now p =
      seal_for challenge_id delivery_id nonce now p
        (mailbox (lib.parse_address (trim_space p.recipient)))

  -- SealPasswordReset; the time to live is in nanoseconds.
  unfoldable pub seal_password_reset :
      Uuid → Bytes → Bytes → Time → Uuid → Bytes → Time → Result MailDelivery
  unfolding seal_payload
  seal_password_reset challenge_id recipient code ttl delivery_id nonce now =
      if challenge_id == 0
        || not (valid_reset_code code)
        || ltb ttl 60_000_000_000
        || ltb 3_600_000_000_000 ttl
      then err (other_error "invalid password reset mail payload")
      else seal_payload challenge_id delivery_id nonce now (record {
        version = payload_version;
        purpose = password_reset;
        recipient = recipient;
        code = code;
        ttl_seconds = ttl / 1_000_000_000;
      })

  -- SealPasswordChanged
  unfoldable pub seal_password_changed : Uuid → Bytes → Uuid → Bytes → Time → Result MailDelivery
  unfolding seal_payload
  seal_password_changed challenge_id recipient delivery_id nonce now =
      if challenge_id == 0
      then err (other_error "invalid password changed mail payload")
      else seal_payload challenge_id delivery_id nonce now (record {
        version = payload_version;
        purpose = password_changed;
        recipient = recipient;
        code = [];
        ttl_seconds = 0;
      })

  -- The checks of open on the decoded payload.
  unfoldable pub check_payload : MailDelivery → QueuePayload → Option Bytes → Option QueuePayload
  unfolding valid_payload
  check_payload d p none = none
  check_payload d p (some address) =
      if not (p.version == payload_version)
        || not (same_purpose p.purpose d.purpose)
        || not (valid_payload p p.purpose)
      then none
      else some (record p { recipient = address })

  unfoldable pub open_decoded : MailDelivery → Option QueuePayload → Option QueuePayload
  unfolding check_payload mailbox
  open_decoded d none = none
  open_decoded d (some p) = check_payload d p (mailbox (lib.parse_address (trim_space p.recipient)))

  unfoldable pub open_plaintext : MailDelivery → Option Bytes → Option QueuePayload
  unfolding open_decoded
  open_plaintext d none = none
  open_plaintext d (some plaintext) = open_decoded d (lib.decode plaintext)

  -- open; none is any of its errors.
  unfoldable pub open_payload : MailDelivery → Option QueuePayload
  unfolding open_plaintext bytes_from mail_queue_aad
  open_payload d =
      if d.id == 0
        || d.challenge_id == 0
        || not (valid_mail_purpose d.purpose)
        || leb (length d.ciphertext) lib.nonce_size
      then none
      else open_plaintext d (
          lib.unseal (take lib.nonce_size d.ciphertext) (bytes_from lib.nonce_size d.ciphertext)
            (mail_queue_aad d.id d.challenge_id d.purpose))
