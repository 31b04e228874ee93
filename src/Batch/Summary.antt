-- ===== src/Batch/Summary.antt =====
-- src/migrator/phases/batch.py: `_last_summary`, and how `confirm` judges a batch by it. The
-- builtins `int` and `str` of other values than numbers and texts are an argument.
use dropbox_mirror.Base.{
  ℕ, ◌+◌, Bool, true, false, ◌&&◌, Option, none, some, List, [], ◌∷◌, map, length, keep, any, all,
  Text, codes, ◌==◌, nat_eq, text_eq, option_eq, if◌then◌else◌, ok, err, ◌>>=◌,
}
use dropbox_mirror.Base.Json.{
  Json, bool, num, str, arr, obj, Items, nil, item, Fields, end, field_of, get_field, truthy,
  has_field,
}
use dropbox_mirror.Batch.Items.{Report, Services}
use dropbox_mirror.Batch.Staging.{base_name}
use dropbox_mirror.Failure.{Failure, Outcome}
use dropbox_mirror.State.Tables.{BatchItem}

abbrev is_summary : Option Json → Bool
is_summary (some (obj fields)) = has_field (codes "transferredItems") fields
is_summary _ = false

-- The dict of a line, if it is the summary.
abbrev as_dict : Option Json → Fields
as_dict (some (obj fields)) = fields
as_dict _ = end

-- `_last_summary` of a report that is there.
unfoldable pub last_summary : Report → Option Fields
unfolding has_field
last_summary [] = none
last_summary (line ∷ lines) = elim (last_summary lines) [
  | some fields ↦ some fields
  | none ↦ if is_summary line then some (as_dict line) else none
]

abbrev or_other : Option ℕ → Outcome ℕ
or_other none = err Failure.other
or_other (some n) = ok n

abbrev int_of : Services → Json → Outcome ℕ
int_of sv (num n) = ok n
int_of sv (bool true) = ok 1
int_of sv (bool false) = ok 0
int_of sv (str s) = or_other (sv.int_of_text s)
int_of sv _ = err Failure.other

abbrev int_or_zero : Services → Option Json → Outcome ℕ
int_or_zero sv none = ok 0
int_or_zero sv (some value) = int_of sv value

-- `int(summary.get(key, 0))`
unfoldable pub count_of : Services → Text → Fields → Outcome ℕ
unfolding field_of
count_of sv key summary = int_or_zero sv (field_of key summary)

abbrev str_of : Services → Json → Text
str_of sv (str s) = s
str_of sv value = sv.str_of value

-- `str(f.get(key) or "")`
unfoldable pub text_field : Services → Text → Fields → Text
unfolding get_field truthy
text_field sv key f = if truthy (get_field key f) then str_of sv (get_field key f) else []

abbrev dicts : Items → List Fields
dicts nil = []
dicts (item (obj fields) rest) = fields ∷ dicts rest
dicts (item value rest) = dicts rest

-- `[f for f in value if isinstance(f, dict)]` of a true value: a number is not iterable, and
-- the keys of a dict and the characters of a text are no dicts.
abbrev dicts_of : Json → Outcome (List Fields)
dicts_of (arr xs) = ok (dicts xs)
dicts_of (obj fields) = ok []
dicts_of (str s) = ok []
dicts_of _ = err Failure.other

-- `summary.get("failures") or []`
unfoldable pub failures_of : Fields → Outcome (List Fields)
unfolding get_field truthy
failures_of summary =
    let value = get_field (codes "failures") summary in
    if truthy value then dicts_of value else ok []

-- The keys of `errors`, the empty name left out.
unfoldable pub failed_names : Services → List Fields → List Text
unfolding text_field
failed_names sv [] = []
failed_names sv (f ∷ failures) =
    let rest = failed_names sv failures in
    let name = text_field sv (codes "name") f in if name == [] then rest else name ∷ rest

pub record Summary : Type 0 where
  pub transferred : ℕ
  pub skipped : ℕ
  pub failed : ℕ
  pub failures : List Fields

unfoldable pub read_summary : Services → Fields → Outcome Summary
unfolding count_of failures_of
read_summary sv fields = do
  transferred ← count_of sv (codes "transferredItems") fields
  skipped ← count_of sv (codes "skippedItems") fields
  failed ← count_of sv (codes "failedItems") fields
  failures ← failures_of fields
  ok (record { transferred = transferred; skipped = skipped; failed = failed; failures = failures })

abbrev pub has_name : List Text → Text → Bool
has_name names name = any (λ (n : Text). n == name) names

-- `[r for r in rows if name(r) in errors]`
unfoldable pub failed_rows : List Text → List BatchItem → List BatchItem
unfolding base_name
failed_rows names rows = keep (λ (r : BatchItem). has_name names (base_name r.path_display)) rows

abbrev pub names_of : List BatchItem → List Text
names_of rows = map (λ (r : BatchItem). base_name r.path_display) rows

-- `confirmed`; each matched name is in `errors`, so the two sets are equal if every name in
-- `errors` is matched.
unfoldable pub is_confirmed : Services → Summary → ℕ → List BatchItem → Bool
unfolding failed_names failed_rows
is_confirmed sv s folders rows =
    let names = failed_names sv s.failures in
    (s.transferred + s.skipped + s.failed == length rows + folders)
    && (s.failed == length s.failures)
    && all (has_name (names_of (failed_rows names rows))) names
