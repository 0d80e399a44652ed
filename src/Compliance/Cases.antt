-- ===== src/Compliance/Cases.antt =====
-- internal/compliance/memory.go: acceptances, cases and reviews (Accept, Acceptance, Submit, Status,
-- ListCases, Review). `limit` is the source's int, a value below 1 being 0.
use clixor_backend.Prelude.{
  ℕ, String, Option, none, some, List, [], ◌∷◌, ◌++◌, Bool, true, false, not, ◌&&◌, ◌||◌,
  if◌then◌else◌, ◌==◌, nat_eq, string_eq, bytes_eq, pair_eq, ltb, take, sort_by, select,
}
use clixor_backend.Map.{Map, get, put, values}
use clixor_backend.Domain.{Uuid, Time, Bytes, Result, ok, err, invalid, not_found, conflict, before}
use clixor_backend.Compliance.Model.{
  Acceptance, AgeGroup, minor_13_plus, age_of_majority, other_age, Case, CaseStatus, resolved,
  declined, public_case, Review, valid_review, same_state,
}

-- The maps of Memory that these methods use.
pub record Inbox : Type 0 where
  pub acceptances : Map (Uuid × String) Acceptance
  pub cases : Map Uuid Case
  pub reviews : List Review

abbrev pub age_number : AgeGroup → ℕ
age_number minor_13_plus = 0
age_number age_of_majority = 1
age_number other_age = 2

abbrev pub equal_bool : Bool → Bool → Bool
equal_bool true b = b
equal_bool false b = not b

unfoldable pub accept_over : Acceptance → Option Acceptance → Inbox → Result Acceptance × Inbox
accept_over a none m = (ok a, record m { acceptances = put m.acceptances (a.user_id, a.version) a })
accept_over a (some old) m =
    if not (old.document_sha256 == a.document_sha256)
      || not (age_number old.age_group == age_number a.age_group)
      || not (equal_bool old.guardian_permission a.guardian_permission)
    then (err conflict, m)
    else (ok old, m)

-- Accept
unfoldable pub accept : Acceptance → Inbox → Result Acceptance × Inbox
unfolding accept_over
accept a m = accept_over a (get m.acceptances (a.user_id, a.version)) m

abbrev pub or_missing : Option Acceptance → Result Acceptance
or_missing none = err not_found
or_missing (some a) = ok a

-- Acceptance
unfoldable pub acceptance : Uuid → String → Inbox → Result Acceptance
acceptance id version m = or_missing (get m.acceptances (id, version))

unfoldable pub submit_over : Case → Option Case → Inbox → Result CaseStatus × Inbox
submit_over c none m = (ok (public_case c), record m { cases = put m.cases c.id c })
submit_over c (some old) m =
    if not (old.token_hash == c.token_hash) || not (old.request_hash == c.request_hash)
    then (err conflict, m)
    else (ok (public_case old), m)

-- Submit
unfoldable pub submit : Case → Inbox → Result CaseStatus × Inbox
unfolding submit_over
submit c m = submit_over c (get m.cases c.id) m

unfoldable pub status_for : Bytes → Option Case → Result CaseStatus
status_for hash none = err not_found
status_for hash (some c) = if c.token_hash == hash then ok (public_case c) else err not_found

-- Status
unfoldable pub case_status : Uuid → Bytes → Inbox → Result CaseStatus
unfolding status_for
case_status id hash m = status_for hash (get m.cases id)

abbrev pub open_case : Case → Bool
open_case c = not (same_state c.status resolved) && not (same_state c.status declined)

-- ListCases; cases received at the same time stand in the order of the map.
unfoldable pub list_cases : ℕ → Inbox → Result (List Case)
list_cases limit m =
    if limit == 0 || ltb 100 limit
    then err invalid
    else ok (
        take limit
          (sort_by (λ a b. before a.received_at b.received_at) (select open_case (values m.cases))))

unfoldable pub reviewed : Review → Time → Case → Case
reviewed r now c = record c { status = r.status; public_update = r.public_update; updated_at = now }

unfoldable pub review_found : Review → Time → Option Case → Inbox → Result (Unit {0}) × Inbox
unfolding reviewed
review_found r now none m = (err not_found, m)
review_found r now (some c) m =
    if not (same_state c.status r.expected_status) then (err conflict, m) else (
      ok tt,
      record m { cases = put m.cases c.id (reviewed r now c); reviews = m.reviews ++ r ∷ [] },
    )

-- Review
unfoldable pub review : Review → Time → Inbox → Result (Unit {0}) × Inbox
unfolding review_found
review r now m =
    if not (valid_review r) then (err invalid, m) else review_found r now (get m.cases r.case_id) m
