-- ===== src/Diagnostics/Bounded.antt =====
-- Bounded copies of values (backend/bl_haos/diagnostics.py: DiagnosticsService._bounded).
pub mod Laws
use bl_haos_bridge.Prelude.{
  ℕ, zero, suc, ◌+◌, ◌-◌, Bool, true, false, not, ◌&&◌, ◌||◌, List, [], ◌∷◌, ◌++◌, map, any, select,
  length, take, drop, ltb, leb, ◌==◌, if◌then◌else◌, Option, none, some,
}
use bl_haos_bridge.Dict.{Text, Dict}
use bl_haos_bridge.Text.{codes, lower, contains, text_eq}
use bl_haos_bridge.Redaction.{redact_str, safe_text}
use bl_haos_bridge.Json.{
  Value, null, flag, number, text, object, items, mapping, Values, no_values, value, Entries,
  no_entries, entry,
}

abbrev pub max_diagnostics_depth : ℕ
max_diagnostics_depth = 4

abbrev pub omitted_placeholder : Text
omitted_placeholder = codes "[omitted]"

abbrev pub bounded_string_length : ℕ
bounded_string_length = 256

abbrev pub max_collection_items : ℕ
max_collection_items = 100

abbrev pub omitted_keys : List Text
omitted_keys =
    codes "dbus_payload"
    ∷ codes "raw_dbus"
    ∷ codes "raw_output"
    ∷ codes "media"
    ∷ codes "media_url"
    ∷ codes "output"
    ∷ []

abbrev pub secret_words : List Text
secret_words =
    codes "token"
    ∷ codes "password"
    ∷ codes "secret"
    ∷ codes "authorization"
    ∷ codes "credential"
    ∷ []

-- The keys whose entries are left out.
pub is_withheld : Text → Bool
unfolding lower contains
is_withheld key =
    any (text_eq key) omitted_keys || any (λ word. contains word (lower key)) secret_words

-- The order of Python strings.
unfoldable pub text_le : Text → Text → Bool
text_le [] b = true
text_le (x ∷ a) [] = false
text_le (x ∷ a) (y ∷ b) = ltb x y || (x == y && text_le a b)

pub insert_entry : Text → Value → Entries → Entries
unfolding text_le
insert_entry k v no_entries = entry k v no_entries
insert_entry k v (entry j w es) =
    if text_le k j then entry k v (entry j w es) else entry j w (insert_entry k v es)

-- `sorted(value, key=str)`
pub sort_entries : Entries → Entries
unfolding insert_entry
sort_entries no_entries = no_entries
sort_entries (entry k v es) = insert_entry k v (sort_entries es)

pub take_entries : ℕ → Entries → Entries
take_entries zero es = no_entries
take_entries (suc n) no_entries = no_entries
take_entries (suc n) (entry k v es) = entry k v (take_entries n es)

pub take_items : ℕ → Values → Values
take_items zero vs = no_values
take_items (suc n) no_values = no_values
take_items (suc n) (value v vs) = value v (take_items n vs)

-- What lies too deep is left out.
abbrev pub limited : ℕ → Value → Value
limited depth v = if ltb max_diagnostics_depth depth then text omitted_placeholder else v

-- The source sorts the keys, skips those that are withheld, and stops at the bound; each entry is
-- bounded by itself, so here they are bounded first and sorted after.
unfoldable mutual
  unfolding is_withheld sort_entries take_entries take_items redact_str safe_text

  pub bounded_in : ℕ → Value → Value
  bounded_in depth null = null
  bounded_in depth (flag b) = flag b
  bounded_in depth (number n) = number n
  bounded_in depth (text t) = text (take bounded_string_length (redact_str t))
  bounded_in depth (object t) = text (safe_text t)
  bounded_in depth (items vs) =
      items (take_items max_collection_items (bounded_items (suc depth) vs))
  bounded_in depth (mapping es) =
      mapping (take_entries max_collection_items (sort_entries (bounded_entries (suc depth) es)))

  pub bounded_items : ℕ → Values → Values
  bounded_items depth no_values = no_values
  bounded_items depth (value v vs) =
      value (limited depth (bounded_in depth v)) (bounded_items depth vs)

  pub bounded_entries : ℕ → Entries → Entries
  bounded_entries depth no_entries = no_entries
  bounded_entries depth (entry k v es) =
      let rest = bounded_entries depth es in
      if is_withheld k then rest else entry k (limited depth (bounded_in depth v)) rest

-- `_bounded`
unfoldable pub bounded : ℕ → Value → Value
unfolding bounded_in
bounded depth v = limited depth (bounded_in depth v)
