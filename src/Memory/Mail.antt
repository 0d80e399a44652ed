-- ===== src/Memory/Mail.antt =====
-- internal/store/memory/mail_delivery.go: the queue of encrypted mail. `limit` is the source's
-- int, a value below 1 being 0; `fresh` is the value of uuid.New().
pub mod Claims
pub mod Finish
pub mod Prune
use clixor_backend.Prelude.{
  ℕ, ◌+◌, Option, none, some, List, [], ◌∷◌, Bool, true, false, not, ◌&&◌, ◌||◌, if◌then◌else◌,
  ◌==◌, nat_eq, bytes_eq, ltb, leb, length, inc64, map,
}
use clixor_backend.Text.{trim_space}
use clixor_backend.Leases.{lease_each, batch_of}
use clixor_backend.Map.{Map, get, put, delete, update_all}
use clixor_backend.Domain.{
  Uuid, Time, PasswordResetChallenge, Error, Result, ok, err, invalid, not_found, conflict, after,
  before,
}
use clixor_backend.Domain.Delivery.{
  MailDelivery, MailStatus, pending, delivered, dead_letter, canceled, unknown, mail_is_pending,
  is_password_reset,
}
use clixor_backend.Memory.{Store}
use clixor_backend.Memory.Outbox.{is_set}
use clixor_backend.Memory.Outbox.Deliver.{Callback}
use clixor_backend.Memory.Outbox.Prune.{max_retention_prune_batch_size}
use clixor_backend.Memory.PasswordReset.{cancel_mail, challenge_inactive, consume}

-- mailDeliveryLease
abbrev pub mail_delivery_lease : Time
mail_delivery_lease = 120_000_000_000

abbrev pub bad_limit : ℕ → Bool
bad_limit limit = limit == 0 || ltb max_retention_prune_batch_size limit

-- A challenge that exists and is consumed or expired.
unfoldable pub inactive : Time → Option PasswordResetChallenge → Bool
inactive now none = false
inactive now (some challenge) =
    not (not (is_set challenge.consumed_at) && after challenge.expires_at now)

-- The first loop of LockMailDeliveryBatch.
unfoldable pub cancel_inactive :
    Time → Map Uuid PasswordResetChallenge → Uuid → MailDelivery → MailDelivery
cancel_inactive now challenges id d =
    if is_password_reset d.purpose
      && mail_is_pending d.status
      && inactive now (get challenges d.challenge_id)
    then cancel_mail now challenge_inactive d
    else d

-- The negated `continue` guard of the second loop.
unfoldable pub mail_claimable : Time → MailDelivery → Bool
mail_claimable now d =
    mail_is_pending d.status
    && not (after d.next_attempt_at now)
    && not (not (d.locked_until == 0) && after d.locked_until now)

abbrev pub mail_order : MailDelivery → MailDelivery → Bool
mail_order a b =
    if a.next_attempt_at == b.next_attempt_at
    then ltb a.id b.id
    else before a.next_attempt_at b.next_attempt_at

unfoldable pub lease_mail : Uuid → Time → MailDelivery → MailDelivery
lease_mail fresh now d = record d {
  attempts = inc64 d.attempts;
  lease_token = fresh;
  locked_until = now + mail_delivery_lease;
}

unfoldable pub mail_batch : ℕ → Time → Map Uuid MailDelivery → List MailDelivery
mail_batch limit now mails = batch_of mail_order (mail_claimable now) limit mails

unfoldable pub swept_mail : Time → Store → Map Uuid MailDelivery
swept_mail now s = update_all (cancel_inactive now s.password_resets) s.mail_deliveries

unfoldable pub lock_mail_delivery_batch :
    ℕ → Uuid → Time → Store → Result (List MailDelivery) × Store
lock_mail_delivery_batch limit fresh now s =
    let swept = swept_mail now s in
    let candidates = mail_batch limit now swept in
    if bad_limit limit then (err invalid, s) else (
      ok (map (lease_mail fresh now) candidates),
      record s { mail_deliveries = lease_each (λ d. d.id) (lease_mail fresh now) candidates swept },
    )

-- The row that a worker holds by its lease, while it is pending.
unfoldable pub leased_mail : Uuid → Option MailDelivery → Option MailDelivery
leased_mail token none = none
leased_mail token (some d) =
    if mail_is_pending d.status && d.lease_token == token then some d else none

unfoldable pub deliver_mail :
    Callback MailDelivery → Option MailDelivery → Store → Option Error × Store
deliver_mail deliver none s = (some not_found, s)
deliver_mail deliver (some d) s = deliver d s

-- WithMailDeliveryLease; the argument of type `Option Error` is ctx.Err().
unfoldable pub with_mail_delivery_lease :
    Uuid → Uuid → Option (Callback MailDelivery) → Option Error → Store → Option Error × Store
unfolding deliver_mail
with_mail_delivery_lease id token none ctx s = (some invalid, s)
with_mail_delivery_lease id token (some deliver) (some e) s =
    if id == 0 || token == 0 then (some invalid, s) else (some e, s)
with_mail_delivery_lease id token (some deliver) none s =
    if id == 0 || token == 0
    then (some invalid, s)
    else deliver_mail deliver (leased_mail token (get s.mail_deliveries id)) s

-- ('a' <= c && c <= 'z') || c == '_' for every character
unfoldable pub lower_or_underscore : List ℕ → Bool
lower_or_underscore [] = true
lower_or_underscore (c ∷ cs) = ((leb b'a' c && leb c b'z') || c == b'_') && lower_or_underscore cs

unfoldable pub valid_mail_error_class : List ℕ → Bool
valid_mail_error_class value =
    not (ltb 64 (length value)) && trim_space value == value && lower_or_underscore value

abbrev pub known_status : MailStatus → Bool
known_status unknown = false
known_status _ = true

-- The fields that every outcome resets.
unfoldable pub release_mail : MailStatus → List ℕ → MailDelivery → MailDelivery
release_mail result error_class d = record d {
  status = result;
  lease_token = 0;
  locked_until = 0;
  last_error_class = error_class;
  delivered_at = none;
  dead_lettered_at = none;
  canceled_at = none;
}

unfoldable pub finish_mail : MailStatus → List ℕ → Time → Time → MailDelivery → MailDelivery
unfolding release_mail
finish_mail pending class next now d = record (release_mail pending class d) {
  next_attempt_at = next;
}
finish_mail delivered class next now d = record (release_mail delivered class d) {
  delivered_at = some now;
}
finish_mail dead_letter class next now d = record (release_mail dead_letter class d) {
  dead_lettered_at = some now;
}
finish_mail canceled class next now d = record (release_mail canceled class d) {
  canceled_at = some now;
}
finish_mail unknown class next now d = d

unfoldable pub consume_once_in :
    Uuid
    → Time
    → Option PasswordResetChallenge
    → Map Uuid PasswordResetChallenge
    → Map Uuid PasswordResetChallenge
consume_once_in id now none challenges = challenges
consume_once_in id now (some challenge) challenges =
    if is_set challenge.consumed_at then challenges else put challenges id (consume now challenge)

-- A dead letter that carried a reset code spends the challenge.
unfoldable pub settle_challenge :
    MailStatus
    → Time
    → MailDelivery
    → Map Uuid PasswordResetChallenge
    → Map Uuid PasswordResetChallenge
unfolding consume_once_in
settle_challenge dead_letter now d challenges =
    if is_password_reset d.purpose
    then consume_once_in d.challenge_id now (get challenges d.challenge_id) challenges
    else challenges
settle_challenge _ now d challenges = challenges

unfoldable pub finish_found :
    Uuid
    → MailStatus
    → Time
    → List ℕ
    → Time
    → Option MailDelivery
    → Store
    → Result (Unit {0}) × Store
unfolding settle_challenge
finish_found id result next class now none s = (err conflict, s)
finish_found id result next class now (some d) s = (
  ok tt,
  record s {
    password_resets = settle_challenge result now d s.password_resets;
    mail_deliveries =
        put s.mail_deliveries id (finish_mail result class (if next == 0 then now else next) now d);
  },
)

unfoldable pub finish_mail_delivery :
    Uuid → Uuid → MailStatus → Time → List ℕ → Time → Store → Result (Unit {0}) × Store
unfolding finish_found
finish_mail_delivery id token result next class now s =
    if not (known_status result) || (id == 0 || token == 0 || not (valid_mail_error_class class))
    then (err invalid, s)
    else finish_found id result next class now (leased_mail token (get s.mail_deliveries id)) s
