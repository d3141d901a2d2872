-- ===== src/AccessToken/Expiry.antt =====
-- What an issued access token promises of its expiry.
use authlier.Common.{
  ap, ◌∙◌, refl, ◌∷◌, [], ◌≡◌, ◌≢◌, ◌≤◌, ◌<◌, String, some, Bytes, arith, inl, inr, Option-cases,
}
use authlier.Clock.{Time, zero_time, add_to, truncate_second, Duration}
use authlier.Exec.{ok}
use authlier.Host.{Host, Reads}
use authlier.Token
use authlier.Token.Base64
use authlier.AccessToken.{Claims, Issued, Jwt, TruncatesDates}
use authlier.AccessToken.Issuing.{
  Issuer, bounded_expiry, claims_at, issue_at, issue_until, signed_result,
}

bounded_expiry-le :
    (lifetime : Duration) (maximum_expiry now : Time)
    → (maximum_expiry ≢ zero_time → bounded_expiry lifetime maximum_expiry now ≤ maximum_expiry)
      × (bounded_expiry lifetime maximum_expiry now ≤ add_to now lifetime)
unfolding bounded_expiry
bounded_expiry-le lifetime maximum_expiry now = (λ set. ground arith, ground arith)

truncate_second-whole : (t : Time) → truncate_second (truncate_second t) ≡ truncate_second t
truncate_second-whole t = omega arith

module _ (jwt : Jwt) (host : Host) (issuer : Issuer) where
  -- A token issued at `now`: its claims name the session and the subject, and carry the returned
  -- expiry cut to whole seconds. The returned expiry is later than `now`, within the lifetime, and not
  -- later than the maximum.
  pub record IsBounded (subject_id session_id : String) (maximum_expiry now : Time)
      (issued : Issued) : Type 0 where
    pub starts : now < issued.expires_at
    pub within : issued.expires_at ≤ add_to now issuer.lifetime
    pub capped : maximum_expiry ≢ zero_time → issued.expires_at ≤ maximum_expiry
    pub signed :
        (claims : Claims) × (jwt.signed_string issuer.private_key issuer.key_id claims
          ≡ some issued.token)
        × (claims.session_id ≡ session_id)
        × (claims.subject ≡ subject_id)
        × (claims.issuer ≡ issuer.issuer)
        × (claims.audience ≡ issuer.audience ∷ [])
        × (claims.expires_at ≡ some (truncate_second issued.expires_at))
        × (claims.not_before ≡ some now)
        × (claims.issued_at ≡ some now)

  issue_at-IsBounded :
      (subject_id session_id : String) (maximum_expiry now : Time) (token_id : Bytes)
      (issued : Issued)
      → TruncatesDates jwt
      → truncate_second now ≡ now
      → issue_at jwt host issuer subject_id session_id maximum_expiry token_id now ≡ ok issued
      → IsBounded subject_id session_id maximum_expiry now issued
  unfolding issue_at signed_result
  issue_at-IsBounded subject_id session_id maximum_expiry now token_id issued cuts whole e =
      let (capped, short) = bounded_expiry-le issuer.lifetime maximum_expiry now in
      let same : issued.expires_at ≡ bounded_expiry issuer.lifetime maximum_expiry now =
        ground arith in
      record {
        starts = ground arith;
        within = rw same short;
        capped = rw same capped;
        signed = (
          claims_at jwt host issuer subject_id session_id token_id now issued.expires_at,
          rw same (ground arith),
          refl,
          refl,
          refl,
          refl,
          ap some (cuts issued.expires_at),
          ap some (cuts now ∙ whole),
          ap some (cuts now ∙ whole),
        );
      }

  -- Where the library cuts dates to whole seconds, a token that `IssueUntil` returns is signed for the
  -- session and the subject, with the expiry returned beside it cut to its whole second. The returned
  -- expiry is later than the whole second of issue, within the lifetime, and not later than a maximum
  -- that is set.
  pub issue_until-IsBounded :
      (subject_id session_id : String) (maximum_expiry : Time) (reads : Reads) (issued : Issued)
      → TruncatesDates jwt
      → (issue_until jwt host issuer subject_id session_id maximum_expiry reads).0 ≡ ok issued
      → IsBounded subject_id session_id maximum_expiry
          (truncate_second (host.now reads.clock))
          issued
  unfolding issue_until Token.generate
  issue_until-IsBounded subject_id session_id maximum_expiry reads issued cuts e =
      elim (Option-cases (host.rand_read reads.draws Token.entropy_bytes)) [
        | inl failed ↦ absurd (ground arith)
        | inr (random, drawn) ↦
            issue_at-IsBounded subject_id session_id maximum_expiry
              (truncate_second (host.now reads.clock)) (Base64.encode_to_string random) issued cuts
              (truncate_second-whole (host.now reads.clock)) (ground arith)
      ]
