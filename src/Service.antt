-- ===== src/Service.antt =====
-- What the managers of totp, emailpassword, emailverification and passwordreset share: they call a
-- store, an outside (a sender, a password hash, an attempt guard, a sink of security events), and the
-- process's clock and random source.
use authlier.Common.{Option, none, some}
use authlier.Exec.{ok, Exec, pure}
use authlier.Host.{Reads}

pub record World (S O : Type 0) : Type 0 where
  pub stored : S
  pub outside : O
  pub reads : Reads

-- A call on one part of the world.
module _ {S O E A : Type 0} where
  abbrev pub on_store : Exec S E A → Exec (World S O) E A
  on_store m w = let (r, s) = m w.stored in (r, record w { stored = s })

  abbrev pub on_outside : Exec O E A → Exec (World S O) E A
  on_outside m w = let (r, o) = m w.outside in (r, record w { outside = o })

  abbrev pub on_host : Exec Reads E A → Exec (World S O) E A
  on_host m w = let (r, reads) = m w.reads in (r, record w { reads = reads })

module _ {S O E T : Type 0} where
  -- `if guard == nil { return nil }; return guard.Check(attempt)`
  abbrev pub check : Option (T → Exec O E (Unit {0})) → T → Exec (World S O) E (Unit {0})
  check none attempt = pure tt
  check (some guard) attempt = on_outside (guard attempt)

  -- `if sink != nil { sink.Record(event) }`: the sink returns nothing.
  abbrev pub notify : (T → O → O) → T → Exec (World S O) E (Unit {0})
  notify sink event = on_outside (λ o. (ok tt, sink event o))
