-- ===== src/Memory/Mail/Claims.antt =====
-- LockMailDeliveryBatch: a mail is leased to one worker at a time.
use clixor_backend.Prelude.{
  ℕ, ◌+◌, ◌<◌, ◌≤◌, ◌≡◌, ◌≢◌, refl, List, [], ◌∷◌, Bool, true, false, not, ◌&&◌, ◌||◌, map, arith,
  All, All-map, All-mapped, nat_eq, ◌==◌, if_both, if_cases, subst, sym, sort_by, select, length,
  length-take-le,
}
use clixor_backend.Map.{Map, values}
use clixor_backend.Leases.{batch_of}
use clixor_backend.Leases.Laws.{
  IsTable, batch_of_sound, lease_each-IsTable, update_all-IsTable, Held, update_all-Held,
  leased-Held, Held-not_in,
}
use clixor_backend.Domain.{Uuid, Time, PasswordResetChallenge, Result, ok, err, after}
use clixor_backend.Domain.Delivery.{MailDelivery, mail_is_pending}
use clixor_backend.Memory.{Store}
use clixor_backend.Memory.Mail.{
  mail_delivery_lease, bad_limit, mail_order, cancel_inactive, mail_claimable, lease_mail,
  mail_batch, swept_mail, lock_mail_delivery_batch,
}
use clixor_backend.Memory.PasswordReset.{cancel_mail}

abbrev mail_id : MailDelivery → ℕ
mail_id d = d.id

-- Each mail is stored under its own id, once.
abbrev pub MailTable : Map Uuid MailDelivery → Type 0
MailTable = IsTable mail_id

-- Settled, or locked beyond `now`.
blocked : Time → MailDelivery → Bool
blocked now d =
    not (mail_is_pending d.status) || (not (d.locked_until == 0) && after d.locked_until now)

blocked-claimable :
    (now : Time) (d : MailDelivery) → blocked now d ≡ true → mail_claimable now d ≡ false
unfolding blocked mail_claimable
blocked-claimable now d h = ground arith

lease-blocked :
    (fresh : Uuid) (now later : Time) (d : MailDelivery)
    → later < now + mail_delivery_lease
    → blocked later (lease_mail fresh now d) ≡ true
unfolding blocked lease_mail
lease-blocked fresh now later d h = ground arith

lease_mail_id : (fresh : Uuid) (now : Time) (d : MailDelivery) → (lease_mail fresh now d).id ≡ d.id
unfolding lease_mail
lease_mail_id fresh now d = refl

module _ (now : Time) (challenges : Map Uuid PasswordResetChallenge) (k : Uuid)
    (d : MailDelivery) where
  cancel-blocked :
      (later : Time)
      → blocked later d ≡ true
      → blocked later (cancel_inactive now challenges k d) ≡ true
  unfolding cancel_inactive cancel_mail blocked
  cancel-blocked later h = ground arith

  cancel_id : (cancel_inactive now challenges k d).id ≡ d.id
  unfolding cancel_inactive cancel_mail
  cancel_id = if_both (λ (x : MailDelivery). x.id ≡ d.id) _ _ d refl refl

swept_mail-MailTable :
    (now : Time) (s : Store) → MailTable s.mail_deliveries → MailTable (swept_mail now s)
unfolding swept_mail
swept_mail-MailTable now s t =
    update_all-IsTable mail_id (cancel_inactive now s.password_resets) s.mail_deliveries
      (cancel_id now s.password_resets) t

-- A mail claim keeps the queue a table: if each mail was stored once and under its own id, it still
-- is after the claim, for every limit.
pub lock_mail-MailTable :
    (limit : ℕ) (fresh : Uuid) (now : Time) (s : Store)
    → MailTable s.mail_deliveries
    → MailTable (lock_mail_delivery_batch limit fresh now s).1.mail_deliveries
unfolding lock_mail_delivery_batch
lock_mail-MailTable limit fresh now s t =
    if_both {A = Result (List MailDelivery) × Store} (λ q. MailTable q.1.mail_deliveries)
      (bad_limit limit) _ _ t
      (lease_each-IsTable mail_id (lease_mail fresh now) (lease_mail_id fresh now)
        (mail_batch limit now (swept_mail now s)) (swept_mail now s) (swept_mail-MailTable now s t))

-- The mails of a reply, none on an error.
abbrev pub mails : Result (List MailDelivery) × Store → List MailDelivery
mails (ok ds, s) = ds
mails (err e, s) = []

abbrev pub DistinctMail : List MailDelivery → List MailDelivery → Type 0
DistinctMail cs ds = All (λ c. All (λ d. c.id ≢ d.id) ds) cs

claimed-Held :
    (limit : ℕ) (fresh : Uuid) (now later : Time) (s : Store)
    → later < now + mail_delivery_lease
    → All
        (λ c.
          Held (blocked later) (lock_mail_delivery_batch limit fresh now s).1.mail_deliveries c.id)
        (mails (lock_mail_delivery_batch limit fresh now s))
unfolding lock_mail_delivery_batch lease_mail
claimed-Held limit fresh now later s h =
    if_both {A = Result (List MailDelivery) × Store}
      (λ q. All (λ c. Held (blocked later) q.1.mail_deliveries c.id) (mails q)) (bad_limit limit) _
      _ tt
      (All-mapped _ (lease_mail fresh now) _ (
        leased-Held (blocked later) mail_id (lease_mail fresh now)
          (λ d. lease-blocked fresh now later d h) (mail_batch limit now (swept_mail now s))
          (swept_mail now s)))

Held-not_claimed :
    (limit : ℕ) (fresh : Uuid) (now : Time) (u : Store) (k : ℕ)
    → MailTable u.mail_deliveries
    → Held (blocked now) u.mail_deliveries k
    → All (λ d. k ≢ d.id) (mails (lock_mail_delivery_batch limit fresh now u))
unfolding lock_mail_delivery_batch lease_mail mail_batch swept_mail
Held-not_claimed limit fresh now u k t h =
    if_both {A = Result (List MailDelivery) × Store} (λ q. All (λ d. k ≢ d.id) (mails q))
      (bad_limit limit) _ _ tt
      (All-mapped _ (lease_mail fresh now) _ (
        Held-not_in (blocked now) mail_id (mail_claimable now) (swept_mail now u) k _
          (blocked-claimable now)
          (update_all-Held (blocked now) (cancel_inactive now u.password_resets) u.mail_deliveries k
            (λ j v. cancel-blocked now u.password_resets j v now) h)
          (batch_of_sound mail_id mail_order (mail_claimable now) limit (swept_mail now u)
            (swept_mail-MailTable now u t))))

-- Mail is leased to one worker at a time: a batch claimed before the leases of an earlier batch
-- run out shares no mail with it, whatever became of the challenges in between, provided the
-- queue is a table of mails under their own ids and is as the first claim left it.
pub lock_mail_exclusive :
    (limit limit' : ℕ) (fresh fresh' : Uuid) (now now' : Time) (s u : Store)
    → MailTable s.mail_deliveries
    → u.mail_deliveries ≡ (lock_mail_delivery_batch limit fresh now s).1.mail_deliveries
    → now' < now + mail_delivery_lease
    → DistinctMail
        (mails (lock_mail_delivery_batch limit fresh now s))
        (mails (lock_mail_delivery_batch limit' fresh' now' u))
lock_mail_exclusive limit limit' fresh fresh' now now' s u t p h =
    All-map _ _ (mails (lock_mail_delivery_batch limit fresh now s))
      (λ c q.
        Held-not_claimed limit' fresh' now' u c.id
          (subst MailTable (sym p) (lock_mail-MailTable limit fresh now s t))
          (subst (λ m. Held (blocked now') m c.id) (sym p) q))
      (claimed-Held limit fresh now now' s h)

length-map :
    (f : MailDelivery → MailDelivery) (ds : List MailDelivery) → length (map f ds) ≡ length ds
length-map f [] = refl
length-map f (d ∷ ds) = omega (arith, length-map f ds)

-- A batch holds at most `limit` mails, and at most 1000.
pub lock_mail_bounded :
    (limit : ℕ) (fresh : Uuid) (now : Time) (s : Store)
    → (length (mails (lock_mail_delivery_batch limit fresh now s)) ≤ limit)
      × (length (mails (lock_mail_delivery_batch limit fresh now s)) ≤ 1000)
unfolding lock_mail_delivery_batch mail_batch batch_of
lock_mail_bounded limit fresh now s =
    if_cases {A = Result (List MailDelivery) × Store}
      (λ q. (length (mails q) ≤ limit) × (length (mails q) ≤ 1000)) (bad_limit limit) _ _
      (λ _. omega arith)
      (λ e.
        let n = length-map (lease_mail fresh now) (mail_batch limit now (swept_mail now s)) in
        let b =
          length-take-le limit
            (sort_by mail_order (select (mail_claimable now) (values (swept_mail now s)))) in
        (omega (arith, n, b), ground arith))
