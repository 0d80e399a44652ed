-- ===== src/Memory/Mail/Finish.antt =====
-- FinishMailDelivery: a lease finishes a mail once.
use clixor_backend.Prelude.{
  ℕ, ◌≡◌, refl, ap, subst, if◌then◌else◌, Option, none, some, List, true, false, not, ◌||◌, arith,
  ◌==◌, nat_eq, if_cases, inl, inr, Bool-cases,
}
use clixor_backend.Map.{get}
use clixor_backend.Map.Laws.{get-put, beq_refl}
use clixor_backend.Domain.{Uuid, Time, Result, ok}
use clixor_backend.Domain.Delivery.{
  MailDelivery, MailStatus, pending, delivered, dead_letter, canceled, unknown, mail_is_pending,
}
use clixor_backend.Memory.{Store}
use clixor_backend.Memory.Outbox.{is_set}
use clixor_backend.Memory.Mail.{
  leased_mail, known_status, valid_mail_error_class, finish_mail, finish_found,
  finish_mail_delivery,
}

-- What a successful finish leaves under the id.
record FinishedMail (id : Uuid) (result : MailStatus) (t : Store) : Type 0 where
  mail : MailDelivery
  stored : get t.mail_deliveries id ≡ some mail
  no_lease : mail.lease_token ≡ 0
  outcome : mail.status ≡ result

finish_mail_fields :
    (result : MailStatus) (class : List ℕ) (next now : Time) (d : MailDelivery)
    → known_status result ≡ true
    → ((finish_mail result class next now d).lease_token ≡ 0)
      × ((finish_mail result class next now d).status ≡ result)
unfolding finish_mail
finish_mail_fields pending class next now d h = (refl, refl)
finish_mail_fields delivered class next now d h = (refl, refl)
finish_mail_fields dead_letter class next now d h = (refl, refl)
finish_mail_fields canceled class next now d h = (refl, refl)
finish_mail_fields unknown class next now d h = cc

found-FinishedMail :
    (id : Uuid) (result : MailStatus) (next : Time) (class : List ℕ) (now : Time)
    (o : Option MailDelivery) (s t : Store)
    → known_status result ≡ true
    → finish_found id result next class now o s ≡ (ok tt, t)
    → FinishedMail id result t
unfolding finish_found
found-FinishedMail id result next class now none s t k h = cc
found-FinishedMail id result next class now (some d) s t k h =
    subst (FinishedMail id result) (ap (λ (q : Result (Unit {0}) × Store). q.1) h) (record {
      mail = finish_mail result class (if next == 0 then now else next) now d;
      stored = rw (get-put, beq_refl id) refl;
      no_lease = fields.0;
      outcome = fields.1;
    })
  where
    fields :
        ((finish_mail result class (if next == 0 then now else next) now d).lease_token ≡ 0)
        × ((finish_mail result class (if next == 0 then now else next) now d).status ≡ result)
    fields = finish_mail_fields result class (if next == 0 then now else next) now d k

finished :
    (id token : Uuid) (result : MailStatus) (next : Time) (class : List ℕ) (now : Time)
    (s t : Store)
    → finish_mail_delivery id token result next class now s ≡ (ok tt, t)
    → FinishedMail id result t
unfolding finish_mail_delivery
finished id token result next class now s t =
    if_cases {A = Result (Unit {0}) × Store} (λ q. q ≡ (ok tt, t) → FinishedMail id result t)
      (not (known_status result) || (id == 0 || token == 0 || not (valid_mail_error_class class))) _
      _ (λ _ h. cc)
      (λ e h.
        found-FinishedMail id result next class now (leased_mail token (get s.mail_deliveries id)) s
          t (ground arith) h)

not_leased :
    (token : Uuid) (d : MailDelivery)
    → d.lease_token ≡ 0
    → (token ≡ 0 → ⊥)
    → leased_mail token (some d) ≡ none
unfolding leased_mail
not_leased token d h n = ground arith

settled_not_leased :
    (token : Uuid) (d : MailDelivery)
    → mail_is_pending d.status ≡ false
    → leased_mail token (some d) ≡ none
unfolding leased_mail
settled_not_leased token d h = rw h refl

refused_without_lease :
    (id token : Uuid) (result : MailStatus) (next : Time) (class : List ℕ) (now : Time) (t : Store)
    → ((token ≡ 0 → ⊥) → leased_mail token (get t.mail_deliveries id) ≡ none)
    → (finish_mail_delivery id token result next class now t).1 ≡ t
unfolding finish_mail_delivery finish_found
refused_without_lease id token result next class now t h =
    if_cases {A = Result (Unit {0}) × Store} (λ q. q.1 ≡ t)
      (not (known_status result) || (id == 0 || token == 0 || not (valid_mail_error_class class))) _
      _ (λ _. refl) (λ e. rw (h (λ z. ground arith)) refl)

-- A lease finishes a mail at most once: after a success, no further finish of that mail writes
-- anything, whatever token, outcome, error class and time it comes with, until the mail is
-- claimed anew; and after an outcome other than pending no token counts as its lease.
pub finish_mail_once :
    (id token token' : Uuid) (result result' : MailStatus) (next next' : Time)
    (class class' : List ℕ) (now now' : Time) (s t : Store)
    → finish_mail_delivery id token result next class now s ≡ (ok tt, t)
    → ((finish_mail_delivery id token' result' next' class' now' t).1 ≡ t)
      × (mail_is_pending result || not (is_set (leased_mail token' (get t.mail_deliveries id)))
          ≡ true)
finish_mail_once id token token' result result' next next' class class' now now' s t h = (
  refused_without_lease id token' result' next' class' now' t
      (λ n. rw v.stored (not_leased token' v.mail v.no_lease n)),
  settled,
)
  where
    v : FinishedMail id result t
    v = finished id token result next class now s t h

    settled :
        mail_is_pending result || not (is_set (leased_mail token' (get t.mail_deliveries id)))
        ≡ true
    settled = elim (Bool-cases (mail_is_pending result)) [
      | inl p ↦ rw p refl
      | inr p ↦ rw (p, v.stored, settled_not_leased token' v.mail (rw v.outcome p)) refl
    ]
