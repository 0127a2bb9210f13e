-- ===== src/Ledger/Service/Details.antt =====
-- Names, descriptions and metadata of accounts and ledgers: `applyUpdate` and its helpers of
-- internal/modules/ledger/ledgers.go.
use astrum.Prelude.{Bool, ◌&&◌, Option, none, some}
use astrum.Prelude.Eq.{Text, text_eq, ◌=?◌}
use astrum.Result.{Result, ok, err, ◌>>=◌, ◌>>◌, invalid}
use astrum.Ledger.Json.{
  Json, null, object, Members, no_member, Metadata, read_json, json_equal, normalize_metadata,
}
use astrum.Ledger.Validate.{validate_details}
use astrum.Ledger.Service.Patch.{merge_patch}

pub record UpdateInput : Type 0 where
  pub name : Option Text
  pub description : Option Text
  pub metadata : Metadata

pub record Details : Type 0 where
  pub name : Text
  pub description : Text
  pub metadata : Metadata

-- `decodeObject`
abbrev members_of : Json → Result Members
members_of (object m) = ok m
members_of _ = err invalid

unfoldable pub decode_object : Metadata → Result Members
unfolding read_json
decode_object none = ok no_member
decode_object (some v) = members_of (read_json v)

-- the switch of `applyUpdate`: blank text changes nothing, and null empties the metadata
unfoldable pub update_metadata : Metadata → Metadata → Result Metadata
unfolding decode_object merge_patch
update_metadata metadata none = ok metadata
update_metadata metadata (some null) = ok (some (object no_member))
update_metadata metadata (some v) = do
  patch ← decode_object (some v)
  target ← decode_object metadata
  ok (some (object (merge_patch target patch)))

abbrev pub or_old {ℓ} : {A : Type ℓ} → Option A → A → A
or_old none old = old
or_old (some a) old = a

unfoldable pub same_details : Details → Details → Bool
same_details d e =
    (d.name =? e.name) && (d.description =? e.description) && json_equal d.metadata e.metadata

-- `reads_object`: whether encoding/json/v2 reads an object in a text; `text_of`: the text of metadata,
-- as the database answers it or as `json.Marshal` writes it.
module _ (reads_object : Text → Bool) (text_of : Metadata → Text) where
  unfoldable pub apply_update : Details → UpdateInput → Bool → Result Details
  unfolding update_metadata validate_details normalize_metadata
  apply_update d i name_required =
      let name = or_old i.name d.name in
      let description = or_old i.description d.description in
      update_metadata d.metadata i.metadata >>= λ metadata.
      validate_details reads_object name description (text_of metadata) name_required
      >> ok (record {
        name = name;
        description = description;
        metadata = normalize_metadata metadata;
      })
