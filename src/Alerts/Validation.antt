-- ===== src/Alerts/Validation.antt =====
-- The checks of a rule's config and of its target (_validate_rule_config and
-- _validate_notification_target of pdf_ingestion/api/routes/admin_alerts.py).
use smart_pdf_extractor.Prelude.{
  ℕ, ◌+◌, ◌*◌, ℤ, pos, ltb_ℤ, String, Bool, true, false, not, ◌&&◌, ◌||◌, Option, none, some, List,
  [], ◌∷◌, ◌++◌, ltb, nat_beq, ◌==◌, string_eq, nat_eq, list_eq, if◌then◌else◌, Text, is_space,
  strip, length, any,
}
use Prim.Native.String.{◌++◌ as append}
use smart_pdf_extractor.Dict
use smart_pdf_extractor.Dict.{Dict}
use smart_pdf_extractor.Alerts.Engine.{
  RuleType, budget, error_rate, abstention_rate, circuit_breaker,
}
use smart_pdf_extractor.Alerts.History.{Channel, webhook, email, other}

-- A value of a rule's config. A decimal is a fraction whose denominator is one more than given.
pub data ConfigValue : Type 0 where
  integer : ℤ → ConfigValue
  decimal : ℤ → ℕ → ConfigValue
  boolean : Bool → ConfigValue
  text : Text → ConfigValue
  unlisted : ConfigValue

abbrev pub RuleConfig : Type 0
RuleConfig = Dict String ConfigValue

-- `isinstance(v, int) and v > 0`: True is 1.
abbrev pub is_positive_int : ConfigValue → Bool
is_positive_int (integer n) = ltb_ℤ (pos 0) n
is_positive_int (boolean b) = b
is_positive_int v = false

-- A number from 0 to 100.
abbrev pub is_percent : ConfigValue → Bool
is_percent (integer n) = not (ltb_ℤ n (pos 0)) && not (ltb_ℤ (pos 100) n)
is_percent (decimal n d) = not (ltb_ℤ n (pos 0)) && not (ltb_ℤ (pos (100 * (d + 1))) n)
is_percent (boolean b) = true
is_percent v = false

abbrev pub monthly : Text
monthly = b'm' ∷ b'o' ∷ b'n' ∷ b't' ∷ b'h' ∷ b'l' ∷ b'y' ∷ []

abbrev pub weekly : Text
weekly = b'w' ∷ b'e' ∷ b'e' ∷ b'k' ∷ b'l' ∷ b'y' ∷ []

abbrev pub is_period : ConfigValue → Bool
is_period (text t) = (t == monthly) || (t == weekly)
is_period v = false

abbrev pub is_name : ConfigValue → Bool
is_name (text t) = ltb 0 (length (strip t))
is_name v = false

-- A key that must be there, with a test of its value.
abbrev pub check_key : Option ConfigValue → (ConfigValue → Bool) → String → String → List String
check_key none good missing bad = missing ∷ []
check_key (some v) good missing bad = if good v then [] else bad ∷ []

abbrev pub rate_errors : RuleConfig → String → List String
rate_errors config kind =
    check_key (Dict.lookup "threshold_percent" config) is_percent
      (append "config.threshold_percent is required for " (append kind " rules"))
      "config.threshold_percent must be a float between 0 and 100"
    ++ check_key (Dict.lookup "evaluation_window_minutes" config) is_positive_int
        (append "config.evaluation_window_minutes is required for " (append kind " rules"))
        "config.evaluation_window_minutes must be a positive integer"

unfoldable pub validate_rule_config : RuleType → RuleConfig → List String
validate_rule_config budget config =
    check_key (Dict.lookup "threshold_tokens" config) is_positive_int
      "config.threshold_tokens is required for budget rules"
      "config.threshold_tokens must be a positive integer"
    ++ check_key (Dict.lookup "billing_period" config) is_period
        "config.billing_period is required for budget rules"
        "config.billing_period must be 'monthly' or 'weekly'"
validate_rule_config error_rate config = rate_errors config "error_rate"
validate_rule_config circuit_breaker config =
    check_key (Dict.lookup "service_name" config) is_name
      "config.service_name is required for circuit_breaker rules"
      "config.service_name must be a non-empty string"
validate_rule_config abstention_rate config = rate_errors config "abstention_rate"

-- `$` also matches before a line feed at the end.
abbrev pub chop : Text → Text
chop [] = []
chop (c ∷ []) = if nat_beq c 10 then [] else c ∷ []
chop (c ∷ d ∷ t) = c ∷ chop (d ∷ t)

abbrev pub strip_prefix : Text → Text → Option Text
strip_prefix [] t = some t
strip_prefix (c ∷ p) [] = none
strip_prefix (c ∷ p) (d ∷ t) = let rest = strip_prefix p t in if nat_beq c d then rest else none

abbrev pub is_solid : Text → Bool
is_solid t = ltb 0 (length t) && not (any is_space t)

abbrev pub solid_rest : Option Text → Bool
solid_rest none = false
solid_rest (some t) = is_solid t

-- ^https?://\S+$
unfoldable pub is_url : Text → Bool
is_url t =
    solid_rest (strip_prefix (b'h' ∷ b't' ∷ b't' ∷ b'p' ∷ b':' ∷ b'/' ∷ b'/' ∷ []) (chop t))
    || solid_rest
        (strip_prefix (b'h' ∷ b't' ∷ b't' ∷ b'p' ∷ b's' ∷ b':' ∷ b'/' ∷ b'/' ∷ []) (chop t))

-- The text before and after the first @.
abbrev pub with_char : ℕ → Option (Text × Text) → Option (Text × Text)
with_char c none = none
with_char c (some (local, domain)) = some (c ∷ local, domain)

abbrev pub split_at_sign : Text → Option (Text × Text)
split_at_sign [] = none
split_at_sign (c ∷ t) =
    let rest = with_char c (split_at_sign t) in if nat_beq c b'@' then some ([], t) else rest

-- A dot with a character before it and one behind it.
abbrev pub inner_dot : Text → Bool
inner_dot [] = false
inner_dot (c ∷ []) = false
inner_dot (c ∷ d ∷ []) = false
inner_dot (c ∷ d ∷ e ∷ t) =
    let rest = inner_dot (d ∷ e ∷ t) in if nat_beq d b'.' then true else rest

abbrev pub is_address : Option (Text × Text) → Bool
is_address none = false
is_address (some (local, domain)) =
    is_solid local && is_solid domain && not (any (λ c. nat_beq c b'@') domain) && inner_dot domain

-- ^[^@\s]+@[^@\s]+\.[^@\s]+$
unfoldable pub is_email : Text → Bool
is_email t = is_address (split_at_sign (chop t))

-- The error, if there is one.
unfoldable pub validate_notification_target : Channel → Text → Option String
unfolding is_url is_email
validate_notification_target webhook target =
    if is_url target
    then none
    else some "notification_target must be a valid URL for webhook channel"
validate_notification_target email target =
    if is_email target
    then none
    else some "notification_target must be a valid email address for email channel"
validate_notification_target other target = none
