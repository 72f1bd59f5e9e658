-- ===== src/Safety/Gate/Tokens.antt =====
-- Which tokens pass, and how often.
use backhouse_dff.Base.{
  ℕ, ◌+◌, ◌*◌, ◌≤◌, ◌<◌, ◌≡◌, refl, ◌⊎◌, inl, inr, max, String, Bool, true, false, ◌&&◌, Option,
  none, some, arith, if◌then◌else◌, leb, ◌==◌, text_key, Bool-cases, eqb_refl,
}
use backhouse_dff.Safety.Gate.{
  DeletionGate, is_active, is_set, is_uuid_hex, clear_token, issue_token, verify_stripped,
  verify_token, assert_allowed,
}

-- The tests on a stripped text, for what the active token may be.
stripped_cases :
    (active : Option String) (until now : ℕ) (allow : Bool) (t : String)
    → (if is_set active
        then if leb until now then false else is_active active t
        else allow && is_uuid_hex t)
      ≡ true
    → ((active ≡ some t) × (now < until))
      ⊎ ((is_set active ≡ false) × (allow ≡ true) × (is_uuid_hex t ≡ true))
stripped_cases none until now allow t h = ground arith
stripped_cases (some a) until now allow t h = ground (arith, text_key.eqb_iff t a)

in_time : (until now : ℕ) → now < until → leb until now ≡ false
in_time until now h = ground arith

refused_and : (allow : Bool) → (allow && false) ≡ false
refused_and allow = ground arith

taken_given : (test : Bool) (rest : Bool) → (if test then false else rest) ≡ true → rest ≡ true
taken_given test rest = ground arith

module _ (ticks : ℕ) (strip : String → String) where
  -- A token that passes is, when stripped, the active token before its expiry, or, where no token
  -- is active and the configuration allows it, 32 hexadecimal digits.
  pub verify_token-accepts :
      (g : DeletionGate) (now : ℕ) (token : String)
      → verify_token ticks strip g now (some token) ≡ true
      → ((g.active_token ≡ some (strip token)) × (now < g.token_expires_at))
        ⊎ ((is_set g.active_token ≡ false)
            × (g.config.allow_plan_uuid_token ≡ true)
            × (is_uuid_hex (strip token) ≡ true))
  unfolding verify_token
  verify_token-accepts g now token h =
      stripped_cases g.active_token g.token_expires_at now g.config.allow_plan_uuid_token
        (strip token)
        (taken_given (token == "") (verify_stripped ticks strip g now (strip token)) h)

  -- The token of `issue_token`, given back in time, is let pass; where tokens are required it
  -- is used up by that, and the next call with it is refused unless it consists of 32 hexadecimal
  -- digits. Stripping leaves the token alone, and it is not empty.
  pub assert_allowed-issue_token :
      (g : DeletionGate) (issued now later : ℕ) (mode : Bool) (token reason : String)
      → strip token ≡ token
      → (token == "") ≡ false
      → is_uuid_hex token ≡ false
      → g.config.enabled ≡ true
      → g.config.require_token ≡ true
      → g.config.require_validation_mode ≡ false
      → now < issued + max 10 g.config.token_ttl_seconds * ticks
      → let issued_gate = (issue_token ticks strip g issued token reason).0 in
        (assert_allowed ticks strip issued_gate now mode (some token)
          ≡ some (clear_token issued_gate))
        × (assert_allowed ticks strip (clear_token issued_gate) later mode (some token) ≡ none)
  unfolding assert_allowed verify_token issue_token clear_token
  assert_allowed-issue_token g issued now later mode token reason bare given odd on tokens free
        soon =
      let soon_enough = in_time (issued + max 10 g.config.token_ttl_seconds * ticks) now soon in
      rw
        (
          bare,
          given,
          odd,
          on,
          tokens,
          free,
          eqb_refl token,
          soon_enough,
          refused_and g.config.allow_plan_uuid_token,
        )
        (refl, refl)

  -- From its expiry on, and with any other text, the token of `issue_token` is of no use: the gate
  -- raises as long as a token is active that is not the given one or that has expired.
  pub assert_allowed-refuses :
      (g : DeletionGate) (now : ℕ) (mode : Bool) (token : String)
      → g.config.enabled ≡ true
      → g.config.require_token ≡ true
      → is_set g.active_token ≡ true
      → (g.token_expires_at ≤ now) ⊎ (¬ (g.active_token ≡ some (strip token)))
      → assert_allowed ticks strip g now mode (some token) ≡ none
  unfolding assert_allowed
  assert_allowed-refuses g now mode token on tokens active unfit =
      elim (Bool-cases (verify_token ticks strip g now (some token))) [
        | inl passed ↦ ground (arith, verify_token-accepts g now token passed)
        | inr refused ↦ rw refused (rw (on, tokens) (ground arith))
      ]
