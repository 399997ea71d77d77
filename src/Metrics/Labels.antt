-- ===== src/Metrics/Labels.antt =====
-- The labels of common/observability/observability-metrics.service.ts: `escapeLabel`, and the parts
-- of a key that `getPrometheusMetrics` reads back with `split('|')`.
use ubuy_backend.Base.{ℕ, Option, none, some, List, [], ◌∷◌, ◌++◌, ◌==◌, if◌then◌else◌, get_or_else}
use ubuy_backend.Texts.{Text, split, head, second}
use ubuy_backend.Metrics.{bar}

-- `'"'` and `'\'`
abbrev pub quote : ℕ
quote = 34

abbrev pub backslash : ℕ
backslash = 92

-- `replace` of every occurrence of a character.
unfoldable pub replace_all : ℕ → Text → Text → Text
replace_all c r [] = []
replace_all c r (x ∷ xs) = let rest = replace_all c r xs in if x == c then r ++ rest else x ∷ rest

unfoldable pub escape_label : Text → Text
unfolding replace_all
escape_label value =
    replace_all quote (backslash ∷ quote ∷ [])
      (replace_all backslash (backslash ∷ backslash ∷ []) value)

-- `parts[2]`
abbrev pub third : List Text → Option Text
third [] = none
third (a ∷ []) = none
third (a ∷ b ∷ []) = none
third (a ∷ b ∷ c ∷ parts) = some c

pub record Labels : Type 0 where
  pub first_label : Text
  pub second_label : Text
  pub third_label : Text

-- `const [method, route, status] = key.split('|')`. A key that is built has three parts at least.
unfoldable pub labels_of : Text → Labels
unfolding split
labels_of key =
    let parts = split bar key in
    record {
      first_label = head parts;
      second_label = get_or_else (second parts) [];
      third_label = get_or_else (third parts) [];
    }

-- `<name>="<value>"` and what follows it.
unfoldable pub label : Text → Text → Text → Text
unfolding escape_label
label name value rest = name ++ 61 ∷ quote ∷ (escape_label value ++ quote ∷ rest)

-- `{<name>="...",<name>="...",<name>="..."}`
unfoldable pub labels_text : Text → Text → Text → Labels → Text → Text
unfolding label
labels_text n₁ n₂ n₃ l rest =
    123
    ∷ label n₁ l.first_label
        (44 ∷ label n₂ l.second_label (44 ∷ label n₃ l.third_label (125 ∷ rest)))
