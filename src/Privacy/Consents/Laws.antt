-- ===== src/Privacy/Consents/Laws.antt =====
-- What recording consents settles.
use kitaza.Common.{ℕ, String, ◌≡◌, refl, true, false, List, [], ◌∷◌, any, arith, ◌==◌, eq_refl}
use kitaza.Common.Failure.{ok}
use kitaza.Privacy.Consents.{
  LegalDocument, privacy_notice, terms, ConsentRecord, current_version, record_consent,
  record_version, record_registration_consent, is_consent, newest, given_for, is_settled,
  outstanding, eqb,
}

eqb_self : (document : LegalDocument) → eqb document document ≡ true
eqb_self privacy_notice = refl
eqb_self terms = refl

module _ (owner : ℕ) (consents : List ConsentRecord) where
  given_for-absent :
      (document : LegalDocument) (cs : List ConsentRecord)
      → any (λ c. c.owner_id == owner) cs ≡ false
      → given_for owner document cs ≡ []
  given_for-absent document [] e = refl
  given_for-absent document (c ∷ cs) e = ground (arith, given_for-absent document cs)

  any_consent-absent :
      (document : LegalDocument) (version : String) (cs : List ConsentRecord)
      → any (λ c. c.owner_id == owner) cs ≡ false
      → any (is_consent owner document version) cs ≡ false
  any_consent-absent document version [] e = refl
  any_consent-absent document version (c ∷ cs) e =
      ground (arith, any_consent-absent document version cs)

  -- A new account that agreed to both documents has nothing left to agree to.
  pub registration_settles :
      (now : ℕ)
      → any (λ c. c.owner_id == owner) consents ≡ false
      → outstanding owner (record_registration_consent owner now consents) ≡ []
  unfolding record_registration_consent record_consent outstanding is_settled newest current_version
  registration_settles now e = ground (
    arith,
    given_for-absent privacy_notice consents e,
    given_for-absent terms consents e,
    any_consent-absent privacy_notice "2026-09-01" consents e,
    any_consent-absent terms "2026-09-01" consents e,
  )

  -- Agreeing twice to the same version keeps the first record, and is no error.
  pub record_version_again :
      (document : LegalDocument) (version : String) (now later : ℕ)
      → (record_version owner document version now consents).0 ≡ ok tt
      → let kept = (record_version owner document version now consents).1 in
        record_version owner document version later kept ≡ (ok tt, kept)
  unfolding record_version record_consent
  record_version_again document version now later e =
      ground (arith, eq_refl version, eqb_self document)
