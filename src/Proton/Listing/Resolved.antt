-- ===== src/Proton/Listing/Resolved.antt =====
-- src/migrator/providers/proton_cli.py: which destination `root_uid` accepts.
use dropbox_mirror.Base.{
  >>=-eq-ok, ok-injective, ◌>>=◌, Bool, true, List, [], ◌∷◌, Text, codes, ◌==◌, nat_eq, text_eq,
  option_eq, text_iff, if◌then◌else◌, ok, err, ◌≡◌, refl, sym, ap, subst, ◌∙◌, inl, inr, Bool-cases,
}
use dropbox_mirror.Proton.Listing.{
  proton_not_one_folder, named_entries, get_field, array_of, unwrap, list_parent, split_parent_path,
  check_found, text_or_empty, is_folder_entry, Items, Outcome, Fields, Db, root_uid, check_listing,
  check_uid, only_folder, Reader, resolve,
}

-- The destination is a name below a parent; in the listing of the parent one entry alone has that
-- name, it is a folder, and its UID is the configured one.
pub record Resolved (reader : Reader) (uid : Text) (db : Db) : Type 0 where
  pub parent_path : Text
  pub escaped_name : Text
  pub items : Items
  pub fields : Fields
  pub below : split_parent_path reader.destination ≡ ok (parent_path, escaped_name)
  pub listing : ((list_parent reader parent_path db).0 >>= array_of) ≡ ok items
  pub only_match : named_entries escaped_name items ≡ fields ∷ []
  pub is_folder : is_folder_entry fields ≡ true
  pub observed : text_or_empty reader.str_of (unwrap (get_field (codes "uid") fields)) ≡ uid
  pub configured : uid ≡ reader.expected_destination_uid

only_folder-ok :
    (matches : List Fields) (fields : Fields)
    → only_folder matches ≡ ok fields
    → (matches ≡ fields ∷ []) × (is_folder_entry fields ≡ true)
unfolding only_folder
only_folder-ok [] fields h = cc
only_folder-ok (f ∷ []) fields h =
    let checked = λ (b : Bool). (if b then ok f else err proton_not_one_folder) ≡ ok fields in
    elim (Bool-cases (is_folder_entry f)) [
      | inl t ↦
          let same : f ≡ fields = ok-injective (subst checked t h) in
          (ap (λ (x : Fields). x ∷ []) same, subst (λ x. is_folder_entry x ≡ true) same t)
      | inr n ↦ cc (subst checked n h)
    ]
only_folder-ok (f ∷ g ∷ matches) fields h = cc

check_uid-ok :
    (reader : Reader) (phase : Text) (fields : Fields) (db : Db) (uid : Text)
    → (check_uid reader phase fields db).0 ≡ ok uid
    → (text_or_empty reader.str_of (unwrap (get_field (codes "uid") fields)) ≡ uid)
      × (uid ≡ reader.expected_destination_uid)
unfolding check_uid
check_uid-ok reader phase fields db uid =
    let seen = text_or_empty reader.str_of (unwrap (get_field (codes "uid") fields)) in
    elim (Bool-cases (seen == reader.expected_destination_uid)) [
      | inl t ↦ rw t (λ h.
          let same : seen ≡ uid = ok-injective h in
          (same, sym same ∙ (text_iff seen reader.expected_destination_uid).0 t))
      | inr n ↦ rw n (λ h. cc h)
    ]

check_found-ok :
    (reader : Reader) (phase : Text) (o : Outcome Fields) (db : Db) (uid : Text)
    → (check_found reader phase o db).0 ≡ ok uid
    → (fields : Fields) × (o ≡ ok fields)
      × (text_or_empty reader.str_of (unwrap (get_field (codes "uid") fields)) ≡ uid)
      × (uid ≡ reader.expected_destination_uid)
check_found-ok reader phase (err e) db uid h = cc
check_found-ok reader phase (ok fields) db uid h =
    let (observed, configured) = check_uid-ok reader phase fields db uid h in
    (fields, refl, observed, configured)

resolve-Resolved :
    (reader : Reader) (phase : Text) (db : Db) (uid : Text) (o : Outcome (Text × Text))
    → split_parent_path reader.destination ≡ o
    → (resolve reader phase db o).0 ≡ ok uid
    → Resolved reader uid db
unfolding check_listing
resolve-Resolved reader phase db uid (err e) s h = cc
resolve-Resolved reader phase db uid (ok (parent_path, escaped_name)) s h =
    let listing = (list_parent reader parent_path db).0 >>= array_of in
    let (fields, found, observed, configured) =
      check_found-ok reader phase
        (listing >>= λ items. only_folder (named_entries escaped_name items))
        (list_parent reader parent_path db).1 uid h in
    let (items, listed, only) =
      >>=-eq-ok listing (λ items. only_folder (named_entries escaped_name items)) found in
    let (matches, is_folder) = only_folder-ok (named_entries escaped_name items) fields only in
    record {
      parent_path = parent_path;
      escaped_name = escaped_name;
      items = items;
      fields = fields;
      below = s;
      listing = listed;
      only_match = matches;
      is_folder = is_folder;
      observed = observed;
      configured = configured;
    }

-- The destination is accepted only if, in the listing of its parent, exactly one entry has its
-- escaped name, that entry is a folder, and its UID is the configured one, which is returned.
pub root_uid-Resolved :
    (reader : Reader) (phase : Text) (db : Db) (uid : Text)
    → (root_uid reader phase db).0 ≡ ok uid
    → Resolved reader uid db
unfolding root_uid
root_uid-Resolved reader phase db uid h =
    resolve-Resolved reader phase db uid (split_parent_path reader.destination) refl h
