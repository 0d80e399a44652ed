-- ===== src/Compliance/Release.antt =====
-- internal/compliance/model.go: Release.Validate and placeholder. net/mail, net/url and the digest
-- are the parameter `lib`.
use clixor_backend.Prelude.{
  ℕ, ◌-◌, Option, none, some, List, [], ◌∷◌, Bool, true, false, not, ◌&&◌, ◌||◌, if◌then◌else◌,
  ◌==◌, nat_eq, bytes_eq, ltb, leb, length, exists,
}
use clixor_backend.Text.{trim_space, to_lower, has_prefix}
use clixor_backend.Domain.{Bytes}

-- Release with the fields of its Policy.
pub record Release : Type 0 where
  pub enabled : Bool
  pub version : Bytes
  pub document_sha256 : Bytes
  pub terms_url : Bytes
  pub privacy_url : Bytes
  pub minimum_age : ℕ
  pub intake_enabled : Bool
  pub operator : Bytes
  pub state : Bytes
  pub contact_email : Bytes
  pub reviewed : Bool
  pub monitoring_ready : Bool
  pub document : Bytes

-- What url.Parse finds.
pub record Url : Type 0 where
  pub scheme : Bytes
  pub host : Bytes
  pub has_user : Bool
  pub raw_query : Bytes
  pub path : Bytes
  pub fragment : Bytes

pub record ReleaseLibrary : Type 0 where
  pub parse_address : Bytes → Option Bytes
  pub parse_url : Bytes → Option Url
  pub sha256_hex : Bytes → Bytes

-- strings.Contains
unfoldable pub contains : Bytes → Bytes → Bool
contains [] sub = has_prefix [] sub
contains (c ∷ cs) sub = let rest = contains cs sub in has_prefix (c ∷ cs) sub || rest

-- strings.ToUpper on ASCII
unfoldable pub to_upper : Bytes → Bytes
to_upper [] = []
to_upper (c ∷ cs) = (if leb b'a' c && leb c b'z' then c - 32 else c) ∷ to_upper cs

abbrev pub replace_text : Bytes
replace_text = b'r' ∷ b'e' ∷ b'p' ∷ b'l' ∷ b'a' ∷ b'c' ∷ b'e' ∷ []

abbrev pub placeholder_text : Bytes
placeholder_text = b'p' ∷ b'l' ∷ b'a' ∷ b'c' ∷ b'e' ∷ b'h' ∷ b'o' ∷ b'l' ∷ b'd' ∷ b'e' ∷ b'r' ∷ []

abbrev pub example_text : Bytes
example_text = b'e' ∷ b'x' ∷ b'a' ∷ b'm' ∷ b'p' ∷ b'l' ∷ b'e' ∷ b'.' ∷ []

abbrev pub draft_text : Bytes
draft_text = b'D' ∷ b'R' ∷ b'A' ∷ b'F' ∷ b'T' ∷ []

abbrev pub date_text : Bytes
date_text =
    b'[' ∷ b'E' ∷ b'F' ∷ b'F' ∷ b'E' ∷ b'C' ∷ b'T' ∷ b'I' ∷ b'V' ∷ b'E' ∷ b'_' ∷ b'D' ∷ b'A' ∷ b'T'
    ∷ b'E' ∷ b']' ∷ []

abbrev pub https_text : Bytes
https_text = b'h' ∷ b't' ∷ b't' ∷ b'p' ∷ b's' ∷ []

abbrev pub legal_host : Bytes
legal_host =
    b'c' ∷ b'l' ∷ b'i' ∷ b'x' ∷ b'o' ∷ b'r' ∷ b'.' ∷ b'a' ∷ b't' ∷ b'l' ∷ b'a' ∷ b'n' ∷ b't' ∷ b'e'
    ∷ b'a' ∷ b'n' ∷ b'z' ∷ b'.' ∷ b'c' ∷ b'o' ∷ b'm' ∷ []

abbrev pub terms_path : Bytes
terms_path = b'/' ∷ b't' ∷ b'e' ∷ b'r' ∷ b'm' ∷ b's' ∷ []

abbrev pub privacy_path : Bytes
privacy_path = b'/' ∷ b'p' ∷ b'r' ∷ b'i' ∷ b'v' ∷ b'a' ∷ b'c' ∷ b'y' ∷ []

-- The texts that a published document does not contain.
abbrev pub document_tokens : List Bytes
document_tokens =
    (b'[' ∷ b'S' ∷ b'U' ∷ b'P' ∷ b'P' ∷ b'O' ∷ b'R' ∷ b'T' ∷ b'_' ∷ [])
    ∷ (b'[' ∷ b'P' ∷ b'R' ∷ b'I' ∷ b'V' ∷ b'A' ∷ b'C' ∷ b'Y' ∷ b'_' ∷ [])
    ∷ (b'[' ∷ b'S' ∷ b'A' ∷ b'F' ∷ b'E' ∷ b'T' ∷ b'Y' ∷ b'_' ∷ [])
    ∷ (b'[' ∷ b'D' ∷ b'M' ∷ b'C' ∷ b'A' ∷ b'_' ∷ [])
    ∷ (b'[' ∷ b'B' ∷ b'U' ∷ b'S' ∷ b'I' ∷ b'N' ∷ b'E' ∷ b'S' ∷ b'S' ∷ b'_' ∷ [])
    ∷ (b'[' ∷ b'O' ∷ b'P' ∷ b'E' ∷ b'R' ∷ b'A' ∷ b'T' ∷ b'O' ∷ b'R' ∷ b'_' ∷ [])
    ∷ (b'[' ∷ b'T' ∷ b'R' ∷ b'A' ∷ b'C' ∷ b'K' ∷ b'I' ∷ b'N' ∷ b'G' ∷ b'_' ∷ [])
    ∷ (b'[' ∷ b'R' ∷ b'e' ∷ b'l' ∷ b'e' ∷ b'a' ∷ b's' ∷ b'e' ∷ b' ' ∷ b'n' ∷ b'o' ∷ b't' ∷ b'e'
        ∷ b':' ∷ [])
    ∷ []

-- strings.ContainsAny(v, "[]<>\r\n")
abbrev pub has_markup : Bytes → Bool
has_markup v =
    exists (λ c. c == b'[' || c == b']' || c == b'<' || c == b'>' || c == 13 || c == 10) v

unfoldable pub placeholder_in : Bytes → Bool
unfolding contains
placeholder_in v =
    v == []
    || has_markup v
    || contains v replace_text
    || contains v placeholder_text
    || contains v example_text

-- placeholder
unfoldable pub placeholder : Bytes → Bool
unfolding placeholder_in
placeholder v = placeholder_in (to_lower (trim_space v))

abbrev pub is_address : Bytes → Option Bytes → Bool
is_address email none = false
is_address email (some address) = address == email

unfoldable pub legal_url : Bytes → Option Url → Bool
legal_url path none = false
legal_url path (some u) =
    u.scheme == https_text
    && u.host == legal_host
    && not u.has_user
    && u.raw_query == []
    && u.path == path
    && u.fragment == []

-- The checks on the document's text.
unfoldable pub complete_document : Bytes → Bool
unfolding contains to_upper
complete_document doc =
    not (ltb (length doc) 100)
    && not (ltb 262_144 (length doc))
    && not (contains (to_upper doc) draft_text)
    && not (contains doc date_text)
    && not (exists (contains doc) document_tokens)

module _ (lib : ReleaseLibrary) where
  -- The checks that only a release with its policy enabled has to pass.
  unfoldable pub valid_policy : Release → Bool
  unfolding complete_document legal_url placeholder
  valid_policy r =
      r.reviewed
      && r.minimum_age == 13
      && not (placeholder r.version)
      && not (ltb 80 (length r.version))
      && complete_document r.document
      && legal_url terms_path (lib.parse_url r.terms_url)
      && legal_url privacy_path (lib.parse_url r.privacy_url)
      && r.document_sha256 == lib.sha256_hex r.document

  -- Release.Validate returns nil.
  unfoldable pub valid_release : Release → Bool
  unfolding valid_policy
  valid_release r =
      if not r.enabled && not r.intake_enabled
      then true
      else (not (placeholder r.operator)
          && not (placeholder r.state)
          && not (placeholder r.contact_email)
          && is_address r.contact_email (lib.parse_address r.contact_email)
          && not (exists (λ c. c == 13 || c == 10) r.contact_email)
          && not (r.intake_enabled && not r.monitoring_ready)
          && (not r.enabled || valid_policy r))
