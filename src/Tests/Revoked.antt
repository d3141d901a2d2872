-- ===== src/Tests/Revoked.antt =====
-- Revocation in the durable session store.
use mathlib.Core.Option
use authlier.Common.{
  ◌==◌, bytes_eq, string_eq, map, select, ◌≡◌, refl, Bool, true, some, if◌then◌else◌, ◌∷◌, [],
}
use authlier.Exec.{ok}
use authlier.Host.{Hash}
use authlier.SessionToken.{Record}
use authlier.Postgres.Sessions
use authlier.Postgres.Sessions.{has_hash, of_subject, mark_revoked}
use authlier.Postgres.Sessions.View.{view, revoked_once, view-revoke, view-revoke_all}
use authlier.Tests.Samples.{test_server, with_alice, alice_hash, alice}

-- What a run of the store looks into.
runs : Bool
unfolding Sessions.revoke Sessions.revoke_all
runs = true

revoked : (Sessions.revoke test_server alice_hash 1000 with_alice.stored).0 ≡ ok tt
unfolding runs
revoked = refl

view-revoke_example :
    (row : Record) × (view with_alice.stored.tables alice_hash ≡ some row)
    × ((h : Hash)
        → view (Sessions.revoke test_server alice_hash 1000 with_alice.stored).1.tables h ≡ (
            if alice_hash == h
            then some (revoked_once 1000 row)
            else view with_alice.stored.tables h))
view-revoke_example = view-revoke test_server alice_hash 1000 with_alice.stored revoked

all_revoked :
    (Sessions.revoke_all test_server "alice" 1000 with_alice.stored).0
    ≡ ok (revoked_once 1000 alice ∷ [])
unfolding runs
all_revoked = refl

view-revoke_all_example :
    (revoked_once 1000 alice ∷ []
      ≡ map
          (revoked_once 1000)
          (select (λ r. r.subject_id == "alice") with_alice.stored.tables.sessions))
    × ((h : Hash)
        → view (Sessions.revoke_all test_server "alice" 1000 with_alice.stored).1.tables h
          ≡ Option.map
              (λ r. if r.subject_id == "alice" then revoked_once 1000 r else r)
              (view with_alice.stored.tables h))
view-revoke_all_example =
    view-revoke_all test_server "alice" 1000 with_alice.stored (revoked_once 1000 alice ∷ [])
      all_revoked
