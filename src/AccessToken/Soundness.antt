-- ===== src/AccessToken/Soundness.antt =====
-- What a verified access token proves.
use authlier.Common.{◌≡◌, ◌≤◌, Bytes, arith, true, false, length, string_eq}
use text.Mathlib.TextEquality.{eq_iff}
use authlier.Exec.{ok}
use authlier.Host.{Host}
use authlier.AccessToken.{Session, active_at, Jwt, Claims}
use authlier.AccessToken.Verifying.{
  Verifier, World, parse, session_of, verify_session, lacks_claims, maximum_token_length,
}

module _ {S : Type 0} (jwt : Jwt) (host : Host) (verifier : Verifier S) where
  -- The parser accepted the token with these claims, none that is required is missing, and the
  -- resolver knows the session: it is the one that the claims name, of their subject, and active.
  pub record IsVerified (raw_token : Bytes) (claims : Claims) (session : Session) (w : World S)
      : Type 0 where
    pub sized : length raw_token ≤ maximum_token_length
    pub parsed : (parse jwt host verifier raw_token w.reads).0 ≡ ok claims
    pub complete : lacks_claims claims ≡ false
    pub resolved : (verifier.resolver claims.session_id w.stored).0 ≡ ok session
    pub same_session : session.id ≡ claims.session_id
    pub same_subject : session.subject_id ≡ claims.subject
    pub active :
        active_at session (host.now (parse jwt host verifier raw_token w.reads).1.clock) ≡ true

  -- Whatever the parser and the resolver answer, an access token that `VerifySession` accepts was
  -- accepted by the parser, has the required claims, and belongs to a session that the resolver
  -- returned, of the subject that the claims name, which is active at the time read from the clock.
  pub verify_session-IsVerified :
      (raw_token : Bytes) (claims : Claims) (session : Session) (w : World S)
      → (verify_session jwt host verifier raw_token w).0 ≡ ok (claims, session)
      → IsVerified raw_token claims session w
  unfolding verify_session session_of
  verify_session-IsVerified raw_token claims session w e = record {
    sized = ground arith;
    parsed = ground arith;
    complete = ground arith;
    resolved = ground arith;
    same_session = ground (arith, eq_iff session.id claims.session_id);
    same_subject = ground (arith, eq_iff session.subject_id claims.subject);
    active = ground arith;
  }
