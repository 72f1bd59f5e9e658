-- ===== src/Safety/Gate.antt =====
-- cerebro/core/safety/deletion_gate.py: the token that a permanent delete needs. A time is a number
-- of clock ticks, `ticks` of them to the second; `strip` is `str.strip`, and `token` the value of
-- `secrets.token_urlsafe`. A raised DeletionGateError is `none`.
pub mod Tokens
mod Tests
use Prim.Native.Char.{code}
use backhouse_dff.Base.{
  ℕ, zero, suc, ◌+◌, ◌-◌, ◌*◌, ◌/◌, max, String, Bool, true, false, not, ◌&&◌, ◌||◌, Option, none,
  some, if◌then◌else◌, leb, ltb, ◌==◌, text_key,
}

pub record DeletionGateConfig : Type 0 where
  pub enabled : Bool
  pub require_validation_mode : Bool
  pub require_token : Bool
  pub token_ttl_seconds : ℕ
  pub allow_plan_uuid_token : Bool

abbrev pub default_config : DeletionGateConfig
default_config = record {
  enabled = true;
  require_validation_mode = false;
  require_token = true;
  token_ttl_seconds = 900;
  allow_plan_uuid_token = true;
}

pub record DeletionGate : Type 0 where
  pub config : DeletionGateConfig
  pub active_token : Option String
  pub token_expires_at : ℕ
  pub token_reason : String

abbrev pub new_gate : DeletionGateConfig → DeletionGate
new_gate config = record {
  config = config;
  active_token = none;
  token_expires_at = 0;
  token_reason = "";
}

-- The truth of an optional text: it is there and is not empty.
abbrev pub is_set : Option String → Bool
is_set none = false
is_set (some t) = not (t == "")

-- `[0-9a-fA-F]`, by code points.
abbrev pub is_hex_digit : ℕ → Bool
is_hex_digit c =
    (leb b'0' c && leb c b'9') || (leb b'a' c && leb c b'f') || (leb b'A' c && leb c b'F')

-- `_UUID_HEX_RE`: so many hexadecimal digits and no more. The text is stripped before, so that the
-- line break which `$` lets pass cannot stand at its end.
abbrev pub hex_digits : ℕ → String → Bool
hex_digits zero String.[] = true
hex_digits zero (String.◌∷◌ c s) = false
hex_digits (suc n) String.[] = false
hex_digits (suc n) (String.◌∷◌ c s) = is_hex_digit (code c) && hex_digits n s

unfoldable pub is_uuid_hex : String → Bool
is_uuid_hex = hex_digits 32

pub record TokenStatus : Type 0 where
  pub has_token : Bool
  pub valid : Bool
  pub expires_in : ℕ
  pub reason : String

-- `_active_token = None` and the rest
unfoldable pub clear_token : DeletionGate → DeletionGate
clear_token g = record g { active_token = none; token_expires_at = 0; token_reason = "" }

-- `secrets.compare_digest(t, active)`, for an active token that is set and a text in ASCII; for
-- another text it raises a TypeError, which is left out.
abbrev pub is_active : Option String → String → Bool
is_active none t = false
is_active (some active) t = t == active

module _ (ticks : ℕ) (strip : String → String) where
  unfoldable pub issue_token : DeletionGate → ℕ → String → String → DeletionGate × String
  issue_token g now token reason = (
    record g {
      active_token = some token;
      token_expires_at = now + max 10 g.config.token_ttl_seconds * ticks;
      token_reason = strip reason;
    },
    token,
  )

  unfoldable pub token_status : DeletionGate → ℕ → TokenStatus
  token_status g now =
      let valid = is_set g.active_token && ltb now g.token_expires_at in
      record {
        has_token = is_set g.active_token;
        valid = valid;
        expires_in = if valid then (g.token_expires_at - now) / ticks else 0;
        reason = g.token_reason;
      }

  -- The tests on the stripped token.
  abbrev pub verify_stripped : DeletionGate → ℕ → String → Bool
  verify_stripped g now t =
      if is_set g.active_token
      then if leb g.token_expires_at now then false else is_active g.active_token t
      else g.config.allow_plan_uuid_token && is_uuid_hex t

  abbrev pub verify_given : DeletionGate → ℕ → Option String → Bool
  verify_given g now none = false
  verify_given g now (some token) =
      if token == "" then false else verify_stripped g now (strip token)

  unfoldable pub verify_token : DeletionGate → ℕ → Option String → Bool
  verify_token g now token = verify_given g now token

  unfoldable pub assert_allowed : DeletionGate → ℕ → Bool → Option String → Option DeletionGate
  unfolding clear_token
  assert_allowed g now validation_mode token =
      if not g.config.enabled
      then some g
      else if g.config.require_validation_mode && not validation_mode
      then none
      else if g.config.require_token && not (verify_token g now token)
      then none
      else if g.config.require_token && is_set g.active_token
      then some (clear_token g)
      else some g
