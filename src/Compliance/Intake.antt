-- ===== src/Compliance/Intake.antt =====
-- internal/compliance/memory.go: repeated submissions and reviews.
use clixor_backend.Prelude.{
  ◌≡◌, refl, ap, subst, ◌∙◌, Option, none, some, true, false, not, ◌||◌, ◌==◌, nat_eq, bytes_eq,
  if_cases, arith, Bool-cases, inl, inr,
}
use clixor_backend.Map.{get, put}
use clixor_backend.Map.Laws.{get-put, beq_refl}
use clixor_backend.Domain.{Uuid, Time, Result, ok, err, conflict}
use clixor_backend.Compliance.Model.{
  Case, CaseStatus, Review, public_case, same_state, valid_review,
}
use clixor_backend.Compliance.Cases.{Inbox, submit, submit_over, review, review_found, reviewed}

submit_over_again :
    (c : Case) (o : Option Case) (st : CaseStatus) (m t : Inbox)
    → get m.cases c.id ≡ o
    → submit_over c o m ≡ (ok st, t)
    → submit c t ≡ (ok st, t)
unfolding submit submit_over
submit_over_again c none st m t e h =
    subst (λ u. submit c u ≡ (ok st, u)) (ap (λ r. r.1) h)
      (stored_again ∙ ap (λ r. (r.0, record m { cases = put m.cases c.id c })) h)
  where
    stored_again :
        submit_over c (get (put m.cases c.id c) c.id) (record m { cases = put m.cases c.id c })
        ≡ (ok (public_case c), record m { cases = put m.cases c.id c })
    stored_again =
        rw (get-put, beq_refl c.id) (rw (beq_refl c.token_hash, beq_refl c.request_hash) refl)
submit_over_again c (some old) st m t e h =
    if_cases {A = Result CaseStatus × Inbox}
      (λ r. r ≡ (ok st, t) → submit_over c (get t.cases c.id) t ≡ (ok st, t))
      (not (old.token_hash == c.token_hash) || not (old.request_hash == c.request_hash))
      (err conflict, m) (ok (public_case old), m) (λ _ q. cc)
      (λ same q.
        subst (λ u. submit_over c (get u.cases c.id) u ≡ (ok st, u)) (ap (λ r. r.1) q)
          (rw (e, same) (ap (λ r. (r.0, m)) q)))
      h

-- A submission that was accepted is accepted again with the same answer and changes nothing.
pub submit_idempotent :
    (c : Case) (st : CaseStatus) (m t : Inbox) → submit c m ≡ (ok st, t) → submit c t ≡ (ok st, t)
unfolding submit
submit_idempotent c st m t h = submit_over_again c (get m.cases c.id) st m t refl h

valid_moves : (r : Review) → valid_review r ≡ true → same_state r.status r.expected_status ≡ false
unfolding valid_review
valid_moves r h = ground arith

module _ (r : Review) (now later : Time) (m t : Inbox) where
  -- What the review stores no longer has the expected status.
  reviewed_refused :
      (c : Case) (u : Inbox)
      → same_state r.status r.expected_status ≡ false
      → c.id ≡ r.case_id
      → (review_found r later (get (put m.cases c.id (reviewed r now c)) r.case_id) u).0
        ≡ err conflict
  unfolding review_found reviewed
  reviewed_refused c u moved same = rw (same, get-put, beq_refl r.case_id, moved) refl

  found_once :
      (o : Option Case)
      → ((c : Case) → o ≡ some c → c.id ≡ r.case_id)
      → same_state r.status r.expected_status ≡ false
      → review_found r now o m ≡ (ok tt, t)
      → (review_found r later (get t.cases r.case_id) t).0 ≡ err conflict
  unfolding review_found
  found_once none keyed moved h = cc
  found_once (some c) keyed moved h =
      if_cases {A = Result (Unit {0}) × Inbox}
        (λ q. q ≡ (ok tt, t) → (review_found r later (get t.cases r.case_id) t).0 ≡ err conflict)
        (not (same_state c.status r.expected_status)) (err conflict, m) _ (λ _ q. cc)
        (λ _ q.
          subst (λ u. (review_found r later (get u.cases r.case_id) u).0 ≡ err conflict)
            (ap (λ x. x.1) q) (reviewed_refused c _ moved (keyed c refl)))
        h

-- A review that was carried out is refused when it is repeated, where each case is stored under
-- its id: the status that it expects is no longer there.
pub review_once :
    (r : Review) (now later : Time) (m t : Inbox)
    → ((id : Uuid) (c : Case) → get m.cases id ≡ some c → c.id ≡ id)
    → review r now m ≡ (ok tt, t)
    → (review r later t).0 ≡ err conflict
unfolding review
review_once r now later m t keyed h = elim (Bool-cases (valid_review r)) [
  | inl v ↦ rw v (
      found_once r now later m t (get m.cases r.case_id) (λ c e. keyed r.case_id c e)
        (valid_moves r v) (rw v at h))
  | inr v ↦ cc (rw v at h)
]
