-- ===== src/SessionToken.antt =====
-- sessiontoken/sessiontoken.go: the records of opaque server-side sessions, what a store and a cache
-- promise to offer, and the manager's settings. The manager's methods are in the child `Methods`.
pub mod Config
pub mod Methods
pub mod Lookup
pub mod Ending
use authlier.Common.{
  ◌≡◌, String, Bool, true, false, not, ◌&&◌, ◌||◌, Option, none, some, List, Bytes, ◌==◌, bytes_eq,
  if◌then◌else◌,
}
use authlier.Text.{is_blank}
use authlier.Clock.{Time, before, after, is_zero, Duration}
use authlier.Exec.{Fault, Exec}
use authlier.Host.{Hash, Reads}
use authlier.Token.{zero_hash}

-- The package's errors, as far as `errors.Is` tells them apart. `cache_sync` wraps what the cache
-- returned; `other` is any error of a store, a cache or the host that is none of the package's own.
pub data Error : Type 0 where
  cache_miss conflict inactive invalid_config invalid_record invalid_token not_found : Error
  cache_sync : Error → Error
  other : Fault → Error

pub record Record : Type 0 where
  pub id : String
  pub subject_id : String
  pub token_hash : Hash
  pub created_at : Time
  pub expires_at : Time
  pub extended_at : Option Time
  pub revoked_at : Option Time

-- Record.ActiveAt
unfoldable pub active_at : Record → Time → Bool
active_at r at = elim r.revoked_at [ none ↦ before at r.expires_at | some t ↦ false ]

pub record Issued : Type 0 where
  pub token : Bytes
  pub issued_record : Record

-- `t != nil && t.Before(u)`
abbrev pub set_before : Option Time → Time → Bool
set_before none u = false
set_before (some t) u = before t u

abbrev pub set_after : Option Time → Time → Bool
set_after none u = false
set_after (some t) u = after t u

-- validRecord(record) == nil
unfoldable pub valid_record : Record → Bool
valid_record r =
    if is_blank r.id
      || is_blank r.subject_id
      || r.token_hash == zero_hash
      || is_zero r.created_at
      || not (after r.expires_at r.created_at)
    then false
    else if set_before r.revoked_at r.created_at
    then false
    else if set_before r.extended_at r.created_at || set_after r.extended_at r.expires_at
    then false
    else true

-- The durable authority for sessions, over a state `S`.
pub record Store (S : Type 0) : Type 0 where
  pub create : Record → Exec S Error (Unit {0})
  pub find_by_token_hash : Hash → Exec S Error Record
  pub list_by_subject : String → Exec S Error (List Record)
  pub extend : Hash → Time → Time → Exec S Error Record
  pub rotate : Hash → Record → Time → Exec S Error (Unit {0})
  pub revoke : Hash → Time → Exec S Error (Unit {0})
  pub revoke_all : String → Time → Exec S Error (List Record)

-- The acceleration layer, over a state `C`.
pub record Cache (C : Type 0) : Type 0 where
  pub get : Hash → Exec C Error Record
  pub set : Record → Duration → Exec C Error (Unit {0})
  pub delete : Hash → Exec C Error (Unit {0})

pub record ExtensionConfig : Type 0 where
  pub extend_after : Duration
  pub absolute_lifetime : Duration

pub record Settings : Type 0 where
  pub lifetime : Duration
  pub cache_ttl : Duration
  pub extension : Option ExtensionConfig

pub record Manager (S C : Type 0) : Type 0 where
  pub store : Store S
  pub cache : Option (Cache C)
  pub settings : Settings
  pub open settings use *

-- What the manager's methods read and change.
pub record World (S C : Type 0) : Type 0 where
  pub stored : S
  pub cached : C
  pub reads : Reads
