-- ===== src/SessionToken/Config.antt =====
-- NewManager of sessiontoken/sessiontoken.go. `Config.Now` is the host's clock.
use authlier.Common.{Bool, false, not, ◌||◌, ◌&&◌, Option, none, some, is_set, if◌then◌else◌}
use authlier.Clock.{is_positive, shorter}
use authlier.Exec.{Result, ok, err}
use authlier.SessionToken.{Error, invalid_config, Store, Cache, ExtensionConfig, Settings, Manager}

-- The tests of `config.Extension`, where it is not nil.
unfoldable pub bad_extension : Settings → Option ExtensionConfig → Bool
bad_extension config none = false
bad_extension config (some e) =
    not (is_positive e.extend_after)
    || not (shorter e.extend_after config.lifetime)
    || not (shorter config.lifetime e.absolute_lifetime)

module _ {S C : Type 0} where
  with_store : Store S → Option (Cache C) → Settings → Result Error (Manager S C)
  unfolding bad_extension
  with_store store cache config =
      if not (is_positive config.lifetime)
      then err invalid_config
      else if is_set cache && not (is_positive config.cache_ttl)
      then err invalid_config
      else if bad_extension config config.extension
      then err invalid_config
      else ok (record { store = store; cache = cache; settings = config })

  unfoldable pub new_manager :
      Option (Store S) → Option (Cache C) → Settings → Result Error (Manager S C)
  unfolding with_store
  new_manager none cache config = err invalid_config
  new_manager (some store) cache config = with_store store cache config
