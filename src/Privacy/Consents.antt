-- ===== src/Privacy/Consents.antt =====
-- `LegalDocument` of backend/src/features/privacy/privacy_payloads.rs, and the consents that
-- `ConsentRepository` (consent_repository.rs) and `PrivacyService` (privacy_service.rs) keep.
pub mod Laws
use text.Mathlib.Text.{◌==◌ as str_eq}
use Prim.Native.String.{◌++◌}
use kitaza.Common.{
  ℕ, String, Bool, true, false, ◌&&◌, not, Option, none, some, List, [], ◌∷◌, select, any, leb,
  if◌then◌else◌, ◌==◌,
}
use kitaza.Common.Failure.{ApiResult, ok, err, bad_request, ◌>>◌}

pub data LegalDocument : Type 0 where
  privacy_notice terms : LegalDocument

-- `LegalDocument::ALL`
abbrev pub all : List LegalDocument
all = privacy_notice ∷ terms ∷ []

unfoldable pub column_value : LegalDocument → String
column_value privacy_notice = "privacy_notice"
column_value terms = "terms"

unfoldable pub current_version : LegalDocument → String
current_version privacy_notice = "2026-09-01"
current_version terms = "2026-09-01"

-- A row of `consent_records`.
pub record ConsentRecord : Type 0 where
  pub owner_id : ℕ
  pub document : LegalDocument
  pub version : String
  pub agreed_at : ℕ

-- One turn of the loop in `check_registration_consent`.
abbrev pub agrees : LegalDocument → Option String → ApiResult (Unit {0})
agrees document given =
    let refused = err (
      bad_request (
        ((column_value document ++ " version ") ++ current_version document)
        ++ " must be agreed to")) in
    elim given [
      | none ↦ refused
      | some version ↦ if str_eq version (current_version document) then ok tt else refused
    ]

-- `check_registration_consent`
unfoldable pub check_registration_consent : Option String → Option String → ApiResult (Unit {0})
unfolding column_value current_version
check_registration_consent privacy_version terms_version =
    agrees privacy_notice privacy_version >> agrees terms terms_version

-- The derived `PartialEq`.
abbrev pub eqb : LegalDocument → LegalDocument → Bool
eqb privacy_notice privacy_notice = true
eqb terms terms = true
eqb _ _ = false

abbrev pub is_consent : ℕ → LegalDocument → String → ConsentRecord → Bool
is_consent owner document version c =
    (c.owner_id == owner) && eqb c.document document && str_eq c.version version

-- `ConsentRepository::record`
unfoldable pub record_consent :
    ℕ → LegalDocument → String → ℕ → List ConsentRecord → List ConsentRecord
record_consent owner document version now consents =
    if any (is_consent owner document version) consents
    then consents
    else record { owner_id = owner; document = document; version = version; agreed_at = now }
      ∷ consents

-- `record_registration_consent`
unfoldable pub record_registration_consent : ℕ → ℕ → List ConsentRecord → List ConsentRecord
unfolding record_consent current_version
record_registration_consent owner now consents =
    record_consent owner terms (current_version terms) now
      (record_consent owner privacy_notice (current_version privacy_notice) now consents)

-- `PrivacyService::record`
unfoldable pub record_version :
    ℕ → LegalDocument → String → ℕ → List ConsentRecord → ApiResult (Unit {0}) × List ConsentRecord
unfolding record_consent current_version
record_version owner document version now consents =
    if not (str_eq version (current_version document))
    then (err (bad_request "that is not the version in force"), consents)
    else (ok tt, record_consent owner document version now consents)

-- The row of a document that was agreed to last.
unfoldable pub newest : List ConsentRecord → Option ConsentRecord
newest [] = none
newest (c ∷ cs) = elim (newest cs) [
  | none ↦ some c
  | some best ↦ if leb best.agreed_at c.agreed_at then some c else some best
]

abbrev pub given_for : ℕ → LegalDocument → List ConsentRecord → List ConsentRecord
given_for owner document = select (λ c. (c.owner_id == owner) && eqb c.document document)

-- Whether `given_by` has the version in force of a document.
unfoldable pub is_settled : ℕ → LegalDocument → List ConsentRecord → Bool
unfolding newest current_version
is_settled owner document consents = elim (newest (given_for owner document consents)) [
  | none ↦ false
  | some c ↦ str_eq c.version (current_version document)
]

-- The outstanding documents of `state`.
unfoldable pub outstanding : ℕ → List ConsentRecord → List LegalDocument
unfolding is_settled
outstanding owner consents = select (λ document. not (is_settled owner document consents)) all
