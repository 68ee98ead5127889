-- ===== src/Solution4/Auth.antt =====
-- Authentication: `authenticate`, `_auth_payload_from_cache` and `_ensure_admin` of
-- solutions/4_solution/src/solution4/app.py.

use text.Mathlib.Text.{starts_with}
use metered_compute.Base.{ℕ, zero, suc, String, Option, none, some, str_eq, if◌then◌else◌}
use metered_compute.Exec.{Exec, http_exception, pure, raise, require, ◌>>=◌, ◌>>◌}
use metered_compute.Solution4.World.{User, AuthPayload, Runtime, Action}
use metered_compute.Solution4.Repository.{get_user_by_api_key}
use metered_compute.Solution4.Cache.{cache_auth, get_cached_auth}

pub record AuthUser : Type 0 where
  pub user_id : ℕ
  pub name : String
  pub role : String

abbrev text_or_empty : Option String → String
text_or_empty none = ""
text_or_empty (some s) = s

with_user_id : Option ℕ → AuthPayload → Option AuthUser
with_user_id none p = none
with_user_id (some user_id) p =
    if str_eq (text_or_empty p.role) ""
    then none
    else some
        (record { user_id = user_id; name = text_or_empty p.name; role = text_or_empty p.role })

-- A payload with no role or no user id is not used.
unfoldable pub auth_payload_from_cache : Option AuthPayload → Option AuthUser
unfolding with_user_id
auth_payload_from_cache none = none
auth_payload_from_cache (some p) = with_user_id p.user_id p

-- `auth[n:]`
drop_chars : ℕ → String → String
drop_chars zero s = s
drop_chars (suc n) String.[] = ""
drop_chars (suc n) (String.◌∷◌ c s) = drop_chars n s

auth_user : User → AuthUser
auth_user u = record { user_id = u.user_id; name = u.name; role = u.role }

-- `_ensure_admin`
unfoldable pub ensure_admin : {S : Type 0} → AuthUser → Exec S (Unit {0})
ensure_admin user = require (str_eq user.role "admin") (http_exception 403 "Admin role required")

module _ ⦃rt : Runtime⦄ where
  from_database : String → Option User → Action AuthUser
  unfolding auth_user
  from_database api_key none = raise (http_exception 401 "Invalid API key")
  from_database api_key (some u) = do cache_auth api_key u; pure (auth_user u)

  from_cache : String → Option AuthUser → Action AuthUser
  unfolding from_database
  from_cache api_key (some user) = pure user
  from_cache api_key none = do user ← get_user_by_api_key api_key; from_database api_key user

  -- The argument is the `authorization` header, empty where it is missing.
  unfoldable pub authenticate : String → Action AuthUser
  unfolding from_cache drop_chars
  authenticate auth =
      if starts_with auth "Bearer "
      then (do
        let api_key = drop_chars 7 auth
        payload ← get_cached_auth api_key
        from_cache api_key (auth_payload_from_cache payload))
      else raise (http_exception 401 "Missing API key")
