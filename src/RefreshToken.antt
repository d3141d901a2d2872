-- ===== src/RefreshToken.antt =====
-- refreshtoken/refreshtoken.go: the records of one-time refresh tokens and what a store promises to
-- offer. The manager's methods are in the child `Methods`.
pub mod Methods
use authlier.Common.{
  String, Bool, true, false, not, ◌&&◌, ◌||◌, Option, none, some, Bytes, ◌==◌, bytes_eq, is_set,
  if◌then◌else◌,
}
use authlier.Text.{is_blank}
use authlier.Clock.{Time, before, after, is_zero, Duration}
use authlier.Exec.{Fault, Exec}
use authlier.Host.{Hash, Reads}
use authlier.Token.{zero_hash}

-- The package's errors, as far as `errors.Is` tells them apart.
pub data Error : Type 0 where
  conflict inactive invalid_config invalid_record invalid_token not_found reuse_detected : Error
  other : Fault → Error

pub record Record : Type 0 where
  pub session_id : String
  pub token_hash : Hash
  pub created_at : Time
  pub expires_at : Time
  pub rotated_at : Option Time
  pub revoked_at : Option Time

-- Record.ActiveAt
unfoldable pub active_at : Record → Time → Bool
active_at r at = not (is_set r.rotated_at) && not (is_set r.revoked_at) && before at r.expires_at

pub record Issued : Type 0 where
  pub token : Bytes
  pub issued_record : Record

abbrev set_before : Option Time → Time → Bool
set_before none u = false
set_before (some t) u = before t u

-- validRecord(record) == nil
unfoldable pub valid_record : Record → Bool
valid_record r =
    if is_blank r.session_id
      || r.token_hash == zero_hash
      || is_zero r.created_at
      || not (after r.expires_at r.created_at)
    then false
    else if set_before r.rotated_at r.created_at
    then false
    else if set_before r.revoked_at r.created_at
    then false
    else true

-- The durable authority for refresh tokens, over a state `S`.
pub record Store (S : Type 0) : Type 0 where
  pub create : Record → Exec S Error (Unit {0})
  pub find_by_token_hash : Hash → Exec S Error Record
  pub rotate : Hash → Record → Time → Exec S Error (Unit {0})
  pub revoke_session : String → Time → Exec S Error (Unit {0})

pub record Manager (S : Type 0) : Type 0 where
  pub store : Store S
  pub lifetime : Duration

pub record World (S : Type 0) : Type 0 where
  pub stored : S
  pub reads : Reads
