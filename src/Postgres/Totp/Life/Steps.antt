-- ===== src/Postgres/Totp/Life/Steps.antt =====
-- Every operation of the TOTP store, seen as a step, and histories of them.
use authlier.Common.{ℕ, ◌≢◌, refl, String, Option, List, string_eq, bytes_eq}
use authlier.Clock.{Time}
use authlier.Host.{Hash}
use authlier.Totp.{Enrollment, Challenge}
use authlier.Postgres.{Db, Server}
use authlier.Postgres.Totp.{
  Codec, is_enabled, begin_enrollment, find_enrollment, enable, disable, create_challenge,
  find_challenge, complete_code, complete_recovery,
}
use authlier.Postgres.Totp.Life.{Keeps, Keeps-refl, Keeps-trans}
use authlier.Postgres.Totp.Life.Keeping.{
  is_enabled-Preserves, begin_enrollment-Preserves, find_enrollment-Preserves, enable-Preserves,
  disable-Preserves, create_challenge-Preserves, find_challenge-Preserves, complete_code-Preserves,
  complete_recovery-Preserves,
}

module _ (server : Server) (secrets : Option Codec) (subject_id : String) where
  -- One call of an operation of the TOTP store, whatever it returned, but no `Enable` of the subject.
  pub data Step : Db → Db → Type 0 where
    asks : (s : String) (db : Db) → Step db (is_enabled server secrets s db).1
    enrolls : (e : Enrollment) (db : Db) → Step db (begin_enrollment server secrets e db).1
    finds_enrollment : (s : String) (db : Db) → Step db (find_enrollment server secrets s db).1
    enables :
        (s : String) (counter : ℕ) (codes : List Hash) (at : Time) (db : Db)
        → s ≢ subject_id
        → Step db (enable server secrets s counter codes at db).1
    disables_it : (s : String) (at : Time) (db : Db) → Step db (disable server secrets s at db).1
    challenges : (c : Challenge) (db : Db) → Step db (create_challenge server secrets c db).1
    finds_challenge : (h : Hash) (db : Db) → Step db (find_challenge server secrets h db).1
    completes :
        (h : Hash) (counter : ℕ) (at : Time) (db : Db)
        → Step db (complete_code server secrets h counter at db).1
    recovers_it :
        (h code : Hash) (at : Time) (db : Db)
        → Step db (complete_recovery server secrets h code at db).1

  pub data Reach (db : Db) : Db → Type 0 where
    here : Reach db db
    next : {a b : Db} → Reach db a → Step a b → Reach db b

  Step-Keeps : {a b : Db} → Step a b → Keeps subject_id a.tables b.tables
  Step-Keeps (asks s db) = (is_enabled-Preserves server secrets subject_id s).keeps db
  Step-Keeps (enrolls e db) = (begin_enrollment-Preserves server secrets subject_id e).keeps db
  Step-Keeps (finds_enrollment s db) =
      (find_enrollment-Preserves server secrets subject_id s).keeps db
  Step-Keeps (enables s counter codes at db others) =
      (enable-Preserves server secrets subject_id s counter codes at others).keeps db
  Step-Keeps (disables_it s at db) = (disable-Preserves server secrets subject_id s at).keeps db
  Step-Keeps (challenges c db) = (create_challenge-Preserves server secrets subject_id c).keeps db
  Step-Keeps (finds_challenge h db) =
      (find_challenge-Preserves server secrets subject_id h).keeps db
  Step-Keeps (completes h counter at db) =
      (complete_code-Preserves server secrets subject_id h counter at).keeps db
  Step-Keeps (recovers_it h code at db) =
      (complete_recovery-Preserves server secrets subject_id h code at).keeps db

  -- Over any history of operations without an `Enable` of the subject, successful or not, a counter
  -- that the subject's credential has spent stays spent, a used recovery code stays used, and a
  -- closed challenge of anyone stays closed.
  pub Reach-Keeps : {a b : Db} → Reach a b → Keeps subject_id a.tables b.tables
  Reach-Keeps {a} here = Keeps-refl subject_id a.tables a.tables refl
  Reach-Keeps {a} {b} (next {a = m} r s) =
      Keeps-trans subject_id a.tables m.tables b.tables (Reach-Keeps r) (Step-Keeps s)
