-- ===== src/Mailer/Examples.antt =====
-- A cipher that adds a tag, payloads as the lists of their fields, addresses with and without angle
-- brackets, and one queued mail.
use clixor_backend.Prelude.{
  ◌++◌, length, take, ◌==◌, if◌then◌else◌, ◌≤◌, ◌≡◌, refl, none, some, Option, [], ◌∷◌, false, ◌/◌,
  ◌*◌, ◌^◌, arith, nat_eq, bytes_eq,
}
use clixor_backend.Map.{empty, get, put, find, without}
use clixor_backend.Text.{trim_space, trim_left, is_space}
use clixor_backend.Domain.{Bytes}
use clixor_backend.Domain.Delivery.{MailDelivery, password_reset}
use clixor_backend.Memory.{Store, new_store}
use clixor_backend.Memory.Mail.{leased_mail}
use clixor_backend.Mailer.{
  MailLibrary, sealed, seal_for, seal_payload, seal_password_reset, open_payload, valid_reset_code,
  digits, valid_mailbox, count_at, mailbox, bytes_from, QueuePayload,
}
use mathlib.Core.Option
use clixor_backend.Mailer.RoundTrip.{IsAead, reset_payload, open-seal_password_reset}
use clixor_backend.Mailer.Retry.{default_delivery_policy, least, retry_delay, retry_delay_bounds}
use clixor_backend.Mailer.Worker.{MailEnv, deliver}
use clixor_backend.Mailer.Settles.{IsHeld, IsSettled, deliver-IsSettled}

abbrev address : Bytes
address = b'a' ∷ b'@' ∷ b'b' ∷ []

abbrev code : Bytes
code = b'1' ∷ b'2' ∷ b'3' ∷ b'4' ∷ b'5' ∷ b'6' ∷ []

abbrev untag : Bytes → Option Bytes
untag [] = none
untag (tag ∷ text) = some text

abbrev fields : QueuePayload → Bytes
fields p = p.version ∷ p.ttl_seconds ∷ length p.recipient ∷ p.recipient ++ p.code

abbrev of_fields : Bytes → Option QueuePayload
of_fields (version ∷ ttl ∷ n ∷ texts) = some (record {
  version = version;
  purpose = password_reset;
  recipient = take n texts;
  code = bytes_from n texts;
  ttl_seconds = ttl;
})
of_fields _ = none

-- The text between the brackets, or all of it without them.
abbrev until_bracket : Bytes → Bytes
until_bracket [] = []
until_bracket (c ∷ cs) = let rest = until_bracket cs in if c == b'>' then [] else c ∷ rest

abbrev bracketed : Bytes → Bytes
bracketed [] = []
bracketed (c ∷ cs) = if c == b'<' then until_bracket cs else c ∷ cs

abbrev library : MailLibrary
library = record {
  nonce_size = 2;
  seal = λ nonce text aad. 1 ∷ text;
  unseal = λ nonce text aad. untag text;
  encode = fields;
  decode = of_fields;
  parse_address = λ text. some (bracketed text);
}

library-IsAead : IsAead library
library-IsAead = record {
  unseal-seal = λ nonce text aad. refl;
  tagged = λ nonce text aad. omega arith;
}

abbrev queued_mail : MailDelivery
queued_mail = sealed library 7 6 (8 ∷ 9 ∷ []) 50 (reset_payload address code 60_000_000_000)

open-seal_password_reset_example :
    open_payload library queued_mail
    ≡ Option.map
        (λ again. reset_payload again code 60_000_000_000)
        (mailbox (some (bracketed (trim_space address))))
open-seal_password_reset_example =
    open-seal_password_reset library 7 (b'<' ∷ b'a' ∷ b'@' ∷ b'b' ∷ b'>' ∷ []) code address
      60_000_000_000 6 (8 ∷ 9 ∷ []) 50 queued_mail library-IsAead refl refl
      (unfold trim_space trim_left is_space in refl) (unfold bytes_from in refl)
      (unfold seal_password_reset seal_payload seal_for mailbox valid_mailbox count_at
          valid_reset_code digits trim_space trim_left is_space in
        refl)

abbrev env : MailEnv
env = record {
  send_password_reset = λ to code ttl. none;
  send_password_changed = λ to. none;
  canceled_or_late = λ e. false;
  certificate_invalid = λ e. false;
  smtp_code = λ e. none;
  network_error = λ e. false;
}

abbrev leased : MailDelivery
leased = record queued_mail { lease_token = 3; locked_until = 100; attempts = 1 }

abbrev office : Store
office = record new_store { mail_deliveries = put empty 6 leased }

office-IsHeld : IsHeld leased office
office-IsHeld = record {
  id = unfold sealed in refl;
  token = refl;
  leased = unfold leased_mail sealed get put find without in refl;
}

deliver-IsSettled_example :
    IsSettled default_delivery_policy 60 leased
      (deliver library env default_delivery_policy none false 60 leased office)
deliver-IsSettled_example =
    deliver-IsSettled library env default_delivery_policy 60 leased office office-IsHeld

retry_delay_bounds_example :
    (least (5_000_000_000 * 2 ^ 3) 1_800_000_000_000 / 2 ≤ retry_delay default_delivery_policy 6 4)
    × (retry_delay default_delivery_policy 6 4 ≤ least (5_000_000_000 * 2 ^ 3) 1_800_000_000_000)
retry_delay_bounds_example = retry_delay_bounds default_delivery_policy 6 3 (omega arith)
