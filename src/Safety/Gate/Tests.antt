-- ===== src/Safety/Gate/Tests.antt =====
-- A gate with two ticks to the second, whose texts need no stripping.
use backhouse_dff.Base.{◌<◌, ◌≡◌, refl, ◌⊎◌, String, true, false, none, some}
use backhouse_dff.Safety.Gate.{
  DeletionGate, default_config, new_gate, issue_token, verify_token, is_uuid_hex,
}
use backhouse_dff.Safety.Gate.Tokens.{verify_token-accepts}

abbrev bare : String → String
bare s = s

abbrev plan_token : String
plan_token = "0123456789abcdef0123456789ABCDEF"

abbrev issued : DeletionGate
unfolding issue_token
issued = (issue_token 2 bare (new_gate default_config) 100 "q7" "empty the cart").0

plan_token_accepted : verify_token 2 bare (new_gate default_config) 5 (some plan_token) ≡ true
unfolding verify_token is_uuid_hex
plan_token_accepted = refl

-- An active token shuts out the token of a plan.
plan_token_refused : verify_token 2 bare issued 5 (some plan_token) ≡ false
unfolding verify_token issue_token
plan_token_refused = refl

no_token_refused : verify_token 2 bare issued 5 none ≡ false
unfolding verify_token
no_token_refused = refl

verify_token-accepts_example :
    ((none ≡ some plan_token) × (5 < 0))
    ⊎ ((false ≡ false) × (true ≡ true) × (is_uuid_hex plan_token ≡ true))
verify_token-accepts_example =
    verify_token-accepts 2 bare (new_gate default_config) 5 plan_token plan_token_accepted

not_hex : is_uuid_hex "q7" ≡ false
unfolding is_uuid_hex
not_hex = refl
