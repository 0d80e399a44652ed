-- ===== src/Compliance/Examples.antt =====
-- One case and its review.
use clixor_backend.Prelude.{
  ◌≡◌, refl, none, some, [], ◌∷◌, true, nat_eq, if_cases, ◌==◌, ap, sym, ◌∙◌, nat_beq_iff,
}
use clixor_backend.Text.{trim_space, trim_left, is_space}
use clixor_backend.Map.{empty, get, find}
use clixor_backend.Domain.{Uuid, err, conflict}
use clixor_backend.Compliance.Model.{Case, Review, safety, received, reviewing, valid_review}
use clixor_backend.Compliance.Cases.{Inbox, review, review_found}
use clixor_backend.Compliance.Intake.{review_once}

abbrev report : Case
report = record {
  id = 4;
  submission = record {
    category = safety;
    contact = [];
    content_reference = [];
    details = [];
    signature = [];
    good_faith = true;
    authorized = true;
  };
  token_hash = 5 ∷ [];
  request_hash = 6 ∷ [];
  status = received;
  received_at = 10;
  review_due_at = none;
  updated_at = 10;
  public_update = [];
}

abbrev inbox : Inbox
inbox = record { acceptances = empty; cases = record { entries = (4, report) ∷ [] }; reviews = [] }

abbrev triage : Review
triage = record {
  case_id = 4;
  expected_status = received;
  status = reviewing;
  operator = b'a' ∷ b'd' ∷ b'a' ∷ [];
  reason = b'b' ∷ b'e' ∷ b'i' ∷ b'n' ∷ b'g' ∷ b'r' ∷ b'e' ∷ b'a' ∷ b'd' ∷ b'!' ∷ [];
  public_update = [];
}

keyed : (id : Uuid) (c : Case) → get inbox.cases id ≡ some c → c.id ≡ id
unfolding get find
keyed id c =
    if_cases (λ o. o ≡ some c → c.id ≡ id) (4 == id) (some report) none
      (λ e h. ap (λ (x : Case). x.id) (sym (some_injective h)) ∙ (nat_beq_iff 4 id).0 e) (λ _ h. cc)
  where
    some_injective : {x y : Case} → some x ≡ some y → x ≡ y
    some_injective h = cc

review_once_example : (review triage 30 (review triage 20 inbox).1).0 ≡ err conflict
review_once_example =
    review_once triage 20 30 inbox (review triage 20 inbox).1 keyed
      (unfold review review_found valid_review trim_space trim_left is_space get find in refl)
