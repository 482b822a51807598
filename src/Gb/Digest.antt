-- ===== src/Gb/Digest.antt =====
-- crates/gb28181/src/auth.rs: who needs a password, and the digest that shows it.
use lite_nvr.Common.{String, string_eq, nat_eq, Bool, Option, none, some, map}
use lite_nvr.Common.Text.{by_colon, codes, same_codes, ascii_lower}

pub data AuthConfig : Type 0 where
  open_auth : AuthConfig
  shared : String → AuthConfig
  provider : (String → Option String) → AuthConfig

pub data AuthDecision : Type 0 where
  allow : AuthDecision
  require : String → AuthDecision
  reject : AuthDecision

abbrev pub provided : Option String → AuthDecision
provided none = reject
provided (some password) = require password

unfoldable pub password_for : AuthConfig → String → AuthDecision
password_for open_auth device_id = allow
password_for (shared password) device_id = require password
password_for (provider f) device_id = provided (f device_id)

-- The digest header of a request.
pub record Authorization : Type 0 where
  pub username : String
  pub realm : String
  pub uri : String
  pub nonce : String
  pub response : String

-- `md5_hex` is the digest in hexadecimal digits.
module _ (md5_hex : String → String) where
  unfoldable pub digest_response : String → String → String → String → String → String → String
  digest_response username realm password method uri nonce =
      let ha1 = md5_hex (by_colon username (by_colon realm password)) in
      let ha2 = md5_hex (by_colon method uri) in md5_hex (by_colon ha1 (by_colon nonce ha2))

  unfoldable pub verify : String → String → String → String → String → String → String → Bool
  unfolding digest_response
  verify username realm password method uri nonce client_response =
      same_codes
        (map ascii_lower (codes (digest_response username realm password method uri nonce)))
        (map ascii_lower (codes client_response))
