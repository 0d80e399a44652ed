-- ===== src/Mailer/RoundTrip.antt =====
-- internal/mail/queue.go: what open finds in a payload that was sealed.
use clixor_backend.Prelude.{
  ◌/◌, ◌<◌, ◌≡◌, refl, sym, ap, subst, Option, none, some, [], ◌∷◌, ◌++◌, true, false, ◌==◌, nat_eq,
  bytes_eq, leb, length, take, length-append, arith, Bool-cases, inl, inr,
}
use mathlib.Core.Option
use clixor_backend.Text.{trim_space}
use clixor_backend.Domain.{Uuid, Time, Bytes, ok}
use clixor_backend.Domain.Delivery.{
  MailDelivery, MailPurpose, password_reset, password_changed, other_purpose,
}
use clixor_backend.Memory.PasswordReset.{same_purpose}
use clixor_backend.Mailer.{
  QueuePayload, MailLibrary, payload_version, valid_mail_purpose, valid_mailbox, mailbox,
  bytes_from, valid_payload, sealed, seal_for, seal_payload, seal_password_reset, check_payload,
  open_decoded, open_plaintext, open_payload,
}

-- What crypto/cipher documents: a sealed text opens with the same nonce and data, and is longer
-- than nothing by its tag.
pub record IsAead (lib : MailLibrary) : Type 0 where
  pub unseal-seal :
      (nonce text aad : Bytes) → lib.unseal nonce (lib.seal nonce text aad) aad ≡ some text
  pub tagged : (nonce text aad : Bytes) → 0 < length (lib.seal nonce text aad)

take-append : (xs ys : Bytes) → take (length xs) (xs ++ ys) ≡ xs
take-append [] ys = refl
take-append (x ∷ xs) ys = ap (λ r. x ∷ r) (take-append xs ys)

bytes_from-append : (xs ys : Bytes) → bytes_from (length xs) (xs ++ ys) ≡ ys
unfolding bytes_from
bytes_from-append [] ys = refl
bytes_from-append (x ∷ xs) ys = bytes_from-append xs ys

purpose_refl : (p : MailPurpose) → valid_mail_purpose p ≡ true → same_purpose p p ≡ true
purpose_refl password_reset h = refl
purpose_refl password_changed h = refl
purpose_refl other_purpose h = cc

longer : (xs ys : Bytes) → 0 < length ys → leb (length (xs ++ ys)) (length xs) ≡ false
longer xs ys h = ground (arith, length-append xs ys)

module _ (lib : MailLibrary) (aead : IsAead lib) (challenge_id delivery_id : Uuid) (nonce : Bytes)
    (now : Time) (p : QueuePayload) where
  -- The payload with the mailbox that is found in its recipient.
  open-sealed :
      (o : Option Bytes)
      → length nonce ≡ lib.nonce_size
      → (delivery_id == 0) ≡ false
      → (challenge_id == 0) ≡ false
      → valid_mail_purpose p.purpose ≡ true
      → lib.decode (lib.encode p) ≡ some p
      → mailbox (lib.parse_address (trim_space p.recipient)) ≡ o
      → p.version ≡ payload_version
      → valid_payload p p.purpose ≡ true
      → open_payload lib (sealed lib challenge_id delivery_id nonce now p)
        ≡ Option.map (λ a. record p { recipient = a }) o
  unfolding open_payload sealed open_plaintext open_decoded check_payload
  open-sealed none size id challenge purpose decoded address version valid =
      rw
        (
          id,
          challenge,
          purpose,
          sym size,
          longer nonce _ (aead.tagged nonce _ _),
          take-append,
          bytes_from-append,
          aead.unseal-seal,
          decoded,
          address,
        )
        refl
  open-sealed (some a) size id challenge purpose decoded address version valid =
      rw
        (
          id,
          challenge,
          purpose,
          sym size,
          longer nonce _ (aead.tagged nonce _ _),
          take-append,
          bytes_from-append,
          aead.unseal-seal,
          decoded,
          address,
          version,
          purpose_refl p.purpose purpose,
          valid,
        )
        refl

-- The payload of a reset code.
abbrev pub reset_payload : Bytes → Bytes → Time → QueuePayload
reset_payload address code ttl = record {
  version = payload_version;
  purpose = password_reset;
  recipient = address;
  code = code;
  ttl_seconds = ttl / 1_000_000_000;
}

module _ (lib : MailLibrary) (challenge_id : Uuid) (recipient code : Bytes) (ttl : Time)
    (delivery_id : Uuid) (nonce : Bytes) (now : Time) (d : MailDelivery) where
  seal_found :
      (p : QueuePayload) (address : Bytes)
      → lib.parse_address (trim_space p.recipient) ≡ some address
      → seal_payload lib challenge_id delivery_id nonce now p ≡ ok d
      → (sealed lib challenge_id delivery_id nonce now (record p { recipient = address }) ≡ d)
        × (valid_mailbox address ≡ true)
  unfolding seal_payload seal_for mailbox
  seal_found p address found h = elim (Bool-cases (valid_mailbox address)) [
    | inl v ↦ (cc (rw (found, v) at h), v)
    | inr v ↦ cc (rw (found, v) at h)
  ]

  seal_reset_checked :
      seal_password_reset lib challenge_id recipient code ttl delivery_id nonce now ≡ ok d
      → ((challenge_id == 0) ≡ false)
        × (valid_payload (reset_payload recipient code ttl) password_reset ≡ true)
        × (seal_payload lib challenge_id delivery_id nonce now (reset_payload recipient code ttl)
            ≡ ok d)
  unfolding seal_password_reset valid_payload
  seal_reset_checked h = ground arith

-- A queued reset mail opens to what was sealed: where SealPasswordReset returns a delivery with a
-- non-zero id, open on it returns the code and the time to live in seconds that were sealed, for
-- the single mailbox that mail.ParseAddress finds when it reads the sealed address again, and fails
-- where it finds none. The nonce has the cipher's size, and JSON decodes the payload that it
-- encoded.
pub open-seal_password_reset :
    (lib : MailLibrary) (challenge_id : Uuid) (recipient code address : Bytes) (ttl : Time)
    (delivery_id : Uuid) (nonce : Bytes) (now : Time) (d : MailDelivery)
    → IsAead lib
    → length nonce ≡ lib.nonce_size
    → (delivery_id == 0) ≡ false
    → lib.parse_address (trim_space recipient) ≡ some address
    → lib.decode (lib.encode (reset_payload address code ttl))
      ≡ some (reset_payload address code ttl)
    → seal_password_reset lib challenge_id recipient code ttl delivery_id nonce now ≡ ok d
    → open_payload lib d
      ≡ Option.map
          (λ again. reset_payload again code ttl)
          (mailbox (lib.parse_address (trim_space address)))
unfolding valid_payload
open-seal_password_reset lib challenge_id recipient code address ttl delivery_id nonce now d aead
      size id found decoded h =
    let (challenge, valid, stored) =
      seal_reset_checked lib challenge_id recipient code ttl delivery_id nonce now d h in
    let same =
      (seal_found lib challenge_id recipient code ttl delivery_id nonce now d
        (reset_payload recipient code ttl) address found stored).0 in
    subst
      (λ x.
        open_payload lib x
        ≡ Option.map (λ again. reset_payload again code ttl)
            (mailbox (lib.parse_address (trim_space address))))
      same
      (open-sealed lib aead challenge_id delivery_id nonce now (reset_payload address code ttl) _
        size id challenge refl decoded refl refl valid)
