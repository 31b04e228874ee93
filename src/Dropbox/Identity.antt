-- ===== src/Dropbox/Identity.antt =====
-- src/migrator/providers/dropbox_api.py: `identity`, the account that the token belongs to.
use dropbox_mirror.Base.{
  ℕ, Bool, ◌||◌, some, [], map, Text, codes, ◌==◌, nat_eq, text_eq, option_eq, if◌then◌else◌, ok,
  err,
}
use dropbox_mirror.Base.Json.{Json, obj, str, Fields, end, field, has_field, get_field}
use dropbox_mirror.Dropbox.Entries.{Api}
use dropbox_mirror.Dropbox.Requests.{Sent, call}
use dropbox_mirror.Failure.{dropbox_identity, dropbox_account, Outcome}
use dropbox_mirror.Proton.Names.{python_str}
use dropbox_mirror.State.Records.{record_identity_observation}
use dropbox_mirror.State.Tables.{Db, Migration}

pub record Identity : Type 0 where
  pub account_id : Text
  pub display_name : Text
  pub root_namespace_id : Text

abbrev pub fields_of : Json → Fields
fields_of (obj fields) = fields
fields_of _ = end

-- `str(d.get(key, ""))`
abbrev pub text_at : Api → Text → Fields → Text
text_at api key fields =
    if has_field key fields then python_str api.str_of (get_field key fields) else []

abbrev pub renew : Text → Identity → Text → Migration → Migration
renew now identity migration_id m =
    if m.migration_id == migration_id
    then record m {
      source_account_id = some identity.account_id;
      source_account_display = some identity.display_name;
      source_root_namespace_id = some identity.root_namespace_id;
      source_account_observed_at = some now;
    }
    else m

unfoldable pub check_account : Api → Text → Identity → Db → Outcome Identity × Db
unfolding record_identity_observation
check_account api operation identity db =
    let matched = api.expected_account_id == identity.account_id in
    let observed =
      record_identity_observation api.now (codes "dropbox") operation api.expected_account_id
        identity.account_id matched
        (obj (
          field (codes "display_name") (str identity.display_name) (
            field (codes "observed_root_namespace_id") (str identity.root_namespace_id)
              (field (codes "target_root_namespace_id") (str identity.root_namespace_id) end))))
        db in
    if matched
    then (
      ok identity,
      record observed {
        migrations = map (renew api.now identity db.migration_id) observed.migrations;
      },
    )
    else (err dropbox_account, observed)

unfoldable pub who_of : Api → Fields → Identity
unfolding get_field has_field
who_of api fields = record {
  account_id = text_at api (codes "account_id") fields;
  display_name = text_at api (codes "display_name") (fields_of (get_field (codes "name") fields));
  root_namespace_id =
      text_at api (codes "root_namespace_id") (fields_of (get_field (codes "root_info") fields));
}

abbrev pub lacks_identifier : Identity → Bool
lacks_identifier who = (who.account_id == []) || (who.root_namespace_id == [])

-- `identity` after the call; the account and its root namespace must be named. The answer and the
-- two objects in it are taken to be objects where they are there.
unfoldable pub identity_of : Api → Text → Outcome Json → Db → Outcome Identity × Db
unfolding who_of check_account
identity_of api operation (err e) db = (err e, db)
identity_of api operation (ok raw) db =
    let who = who_of api (fields_of raw) in
    if lacks_identifier who then (err dropbox_identity, db) else check_account api operation who db

-- `identity`
unfoldable pub identity : Api → Text → (ℕ → Sent) → Db → Outcome Identity × Db
unfolding call identity_of
identity api operation post db = identity_of api operation (call api.http post).outcome db
