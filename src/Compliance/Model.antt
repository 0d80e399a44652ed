-- ===== src/Compliance/Model.antt =====
-- internal/compliance/model.go: acceptances of the legal documents, cases of the reporting inbox and
-- their reviews. base64 and the digests are the parameter `lib`; texts that are measured are the
-- lists of their bytes, and each set of named strings is a data type with one constructor for
-- every other string.
use clixor_backend.Prelude.{
  ℕ, ◌+◌, String, Option, none, some, [], Bool, true, false, not, ◌&&◌, ◌||◌, if◌then◌else◌, ◌==◌,
  nat_eq, string_eq, bytes_eq, ltb, length, exists,
}
use clixor_backend.Text.{trim_space}
use clixor_backend.Domain.{Uuid, Time, Bytes, Result, ok, err, invalid}

-- Policy, with the fields that an acceptance is compared to.
pub record Policy : Type 0 where
  pub enabled : Bool
  pub version : String
  pub document_sha256 : String

pub data AgeGroup : Type 0 where
  minor_13_plus age_of_majority other_age : AgeGroup

pub record Acceptance : Type 0 where
  pub user_id : Uuid
  pub version : String
  pub document_sha256 : String
  pub age_group : AgeGroup
  pub guardian_permission : Bool
  pub agreed : Bool
  pub accepted_at : Time

pub record Declaration : Type 0 where
  pub version : String
  pub document_sha256 : String
  pub age_group : AgeGroup
  pub guardian_permission : Bool
  pub agreed : Bool

-- Declaration.Receipt
unfoldable pub receipt_of : Declaration → Uuid → Time → Acceptance
receipt_of d id now = record {
  user_id = id;
  version = d.version;
  document_sha256 = d.document_sha256;
  age_group = d.age_group;
  guardian_permission = d.guardian_permission;
  agreed = d.agreed;
  accepted_at = now;
}

abbrev pub age_allows : AgeGroup → Bool → Bool
age_allows minor_13_plus guardian = guardian
age_allows age_of_majority guardian = not guardian
age_allows other_age guardian = false

-- Acceptance.Validate returns nil.
unfoldable pub valid_acceptance : Policy → Acceptance → Bool
valid_acceptance p a =
    p.enabled
    && not (a.user_id == 0)
    && a.agreed
    && a.version == p.version
    && a.document_sha256 == p.document_sha256
    && age_allows a.age_group a.guardian_permission

pub data Category : Type 0 where
  safety privacy_access privacy_correction privacy_deletion privacy_appeal : Category
  copyright copyright_counter_notice intimate_imagery other_category : Category

pub record Submission : Type 0 where
  pub category : Category
  pub contact : Bytes
  pub content_reference : Bytes
  pub details : Bytes
  pub signature : Bytes
  pub good_faith : Bool
  pub authorized : Bool

abbrev pub is_imagery : Category → Bool
is_imagery intimate_imagery = true
is_imagery _ = false

-- The switch on the category.
abbrev pub category_allows : Submission → Category → Bool
category_allows s intimate_imagery =
    not (trim_space s.content_reference == [])
    && not (trim_space s.signature == [])
    && s.good_faith
    && s.authorized
category_allows s other_category = false
category_allows s _ = true

-- Submission.Validate returns nil.
unfoldable pub valid_submission : Submission → Bool
valid_submission s =
    not (ltb (length (trim_space s.contact)) 3)
    && not (ltb 320 (length s.contact))
    && not (ltb (length (trim_space s.details)) 10)
    && not (ltb 8000 (length s.details))
    && not (ltb 2000 (length s.content_reference))
    && not (ltb 200 (length s.signature))
    && not (exists (λ c. c == 0) s.contact)
    && category_allows s s.category

pub data CaseState : Type 0 where
  received reviewing awaiting_information resolved declined other_state : CaseState

abbrev pub state_number : CaseState → ℕ
state_number received = 0
state_number reviewing = 1
state_number awaiting_information = 2
state_number resolved = 3
state_number declined = 4
state_number other_state = 5

abbrev pub same_state : CaseState → CaseState → Bool
same_state a b = state_number a == state_number b

pub record Case : Type 0 where
  pub id : Uuid
  pub submission : Submission
  pub token_hash : Bytes
  pub request_hash : Bytes
  pub status : CaseState
  pub received_at : Time
  pub review_due_at : Option Time
  pub updated_at : Time
  pub public_update : Bytes

-- base64.RawURLEncoding, sha256, and the JSON of a submission.
pub record CaseLibrary : Type 0 where
  pub decode_base64 : Bytes → Option Bytes
  pub sha256 : Bytes → Bytes
  pub submission_json : Submission → Bytes

module _ (lib : CaseLibrary) where
  unfoldable pub hash_decoded : Option Bytes → Result Bytes
  hash_decoded none = err invalid
  hash_decoded (some b) = if length b == 32 then ok (lib.sha256 b) else err invalid

  -- TokenHash
  unfoldable pub token_hash : Bytes → Result Bytes
  unfolding hash_decoded
  token_hash token = hash_decoded (lib.decode_base64 token)

  unfoldable pub case_with : Uuid → Submission → Time → Result Bytes → Result Case
  case_with id submission now (err e) = err e
  case_with id submission now (ok hash) = ok (record {
    id = id;
    submission = submission;
    token_hash = hash;
    request_hash = lib.sha256 (lib.submission_json submission);
    status = received;
    received_at = now;
    review_due_at =
        if is_imagery submission.category then some (now + 172_800_000_000_000) else none;
    updated_at = now;
    public_update = [];
  })

  -- NewCase
  unfoldable pub new_case : Uuid → Bytes → Submission → Time → Result Case
  unfolding case_with token_hash
  new_case id token submission now =
      if id == 0 || not (valid_submission submission)
      then err invalid
      else case_with id submission now (token_hash token)

pub record CaseStatus : Type 0 where
  pub id : Uuid
  pub status : CaseState
  pub received_at : Time
  pub review_due_at : Option Time
  pub updated_at : Time
  pub public_update : Bytes

-- Case.Public
unfoldable pub public_case : Case → CaseStatus
public_case c = record {
  id = c.id;
  status = c.status;
  received_at = c.received_at;
  review_due_at = c.review_due_at;
  updated_at = c.updated_at;
  public_update = c.public_update;
}

pub record Review : Type 0 where
  pub case_id : Uuid
  pub expected_status : CaseState
  pub status : CaseState
  pub operator : Bytes
  pub reason : Bytes
  pub public_update : Bytes

abbrev pub allowed_state : CaseState → Bool
allowed_state other_state = false
allowed_state _ = true

-- Review.Validate returns nil.
unfoldable pub valid_review : Review → Bool
valid_review r =
    not (r.case_id == 0)
    && not (ltb (length (trim_space r.operator)) 3)
    && not (ltb 200 (length r.operator))
    && not (ltb (length (trim_space r.reason)) 10)
    && not (ltb 4000 (length r.reason))
    && not (ltb 2000 (length r.public_update))
    && allowed_state r.status
    && allowed_state r.expected_status
    && not (same_state r.status r.expected_status)
