-- ===== src/Json.antt =====
-- Values of JSON shape, and the redaction of them (backend/bl_haos/health.py: redact_value).
use bl_haos_bridge.Prelude.{Bool, List, [], ◌∷◌, any, map, if◌then◌else◌}
use bl_haos_bridge.Dict.{Text}
use bl_haos_bridge.Text.{codes, contains}
use bl_haos_bridge.Redaction.{redact_str, redacted_placeholder, fold_case}

-- A number is only passed on, so its digits stand for it. `object` is any other Python object, by
-- its `str`. A mapping has its keys in the order of the dict.
mutual
  pub data Value : Type 0 where
    null : Value
    flag : Bool → Value
    number : Text → Value
    text : Text → Value
    object : Text → Value
    items : Values → Value
    mapping : Entries → Value

  pub data Values : Type 0 where
    no_values : Values
    value : Value → Values → Values

  pub data Entries : Type 0 where
    no_entries : Entries
    entry : Text → Value → Entries → Entries

-- `SENSITIVE_QUERY_KEY_TOKENS`: what `api[_-]?key` matches, `key` does.
abbrev pub sensitive_tokens : List Text
sensitive_tokens =
    codes "token"
    ∷ codes "password"
    ∷ codes "secret"
    ∷ codes "authorization"
    ∷ codes "bearer"
    ∷ codes "key"
    ∷ []

pub is_sensitive : Text → Bool
unfolding fold_case contains
is_sensitive key = any (λ token. contains token (map fold_case key)) sensitive_tokens

unfoldable mutual
  unfolding is_sensitive redact_str

  pub redact_value : Value → Value
  redact_value null = null
  redact_value (flag b) = flag b
  redact_value (number n) = number n
  redact_value (text t) = text (redact_str t)
  redact_value (object t) = object t
  redact_value (items vs) = items (redact_items vs)
  redact_value (mapping es) = mapping (redact_entries es)

  pub redact_items : Values → Values
  redact_items no_values = no_values
  redact_items (value v vs) = value (redact_value v) (redact_items vs)

  pub redact_entries : Entries → Entries
  redact_entries no_entries = no_entries
  redact_entries (entry k v es) =
      entry k (if is_sensitive k then text redacted_placeholder else redact_value v)
        (redact_entries es)
