-- ===== src/Postgres/Sessions/Unique.antt =====
-- No operation of the durable session store leaves two rows with the same token hash.
use authlier.Common.{bytes_eq, string_eq}
use authlier.Postgres.{Tables}
use authlier.Postgres.Sessions.Extending.{IsUnique}

abbrev KeepsUnique : Tables → Tables → Type 0
KeepsUnique t t' = IsUnique t → IsUnique t'
