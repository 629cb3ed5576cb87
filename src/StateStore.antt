-- ===== src/StateStore.antt =====
-- src/watcher/state_store.py: the records of handoffs by key, each with a version, and the writes
-- that check the version first. The state of the store is the object that its file holds (a file
-- that is missing or empty is the empty object); an operation runs under the file lock, so it is
-- one step, and `_write_all` replaces the whole file.
pub mod Versions
pub mod Writers
mod Tests
use orchestrator_state_machi.Prelude.{
  String, Bool, true, false, not, Option, none, some, List, [], ◌∷◌, if◌then◌else◌, Result, ok,
  raise, ◌>>=◌, ◌==◌, ◌&&◌,
}
use orchestrator_state_machi.Prelude.Int.{ℤ, pos, pos_part, neg_part, ◌+ℤ◌}
use orchestrator_state_machi.Prelude.Dict.{Dict, lookup, insert}
use orchestrator_state_machi.Prelude.Json.{
  Value, null, int, str, bool, float, list, dict, Fields, end, field, get, is_empty_dict,
}

pub record StateRecord : Type 0 where
  pub state : String
  pub attempt : ℤ
  pub last_transition_at : String
  pub next_retry_at : Option String
  pub last_error_class : Option String
  pub owner_id : Option String
  pub version : ℤ

pub record SaveResult : Type 0 where
  pub saved : Bool
  pub conflict : Bool
  pub version : ℤ
  pub record_saved : Option StateRecord
  pub current : Option StateRecord

-- KeyError on a payload, or a payload field of another type than the record declares (which the
-- code would carry on with).
pub data PayloadError : Type 0 where
  key_error : String → PayloadError
  ill_typed : String → PayloadError

-- `payload[k]`, as a text or as an integer.
unfoldable pub text_field : String → Fields → Result PayloadError String
unfolding get
text_field k d = elim (get k d) [
  | none ↦ raise (key_error k)
  | some v ↦ elim v [ str s ↦ ok s | _ ↦ raise (ill_typed k) ]
]

unfoldable pub int_field : String → Fields → Result PayloadError ℤ
unfolding get
int_field k d = elim (get k d) [
  | none ↦ raise (key_error k)
  | some v ↦ elim v [ int n ↦ ok n | _ ↦ raise (ill_typed k) ]
]

-- A value that is a text or `None`.
unfoldable pub as_optional : String → Value → Result PayloadError (Option String)
as_optional k null = ok none
as_optional k (str s) = ok (some s)
as_optional k _ = raise (ill_typed k)

-- `payload.get(k)`, for a text or `None`.
unfoldable pub optional_field : String → Fields → Result PayloadError (Option String)
unfolding get
optional_field k d = elim (get k d) [ none ↦ ok none | some v ↦ as_optional k v ]

-- `payload.get("version", 0)`
unfoldable pub version_field : Fields → Result PayloadError ℤ
unfolding get
version_field d = elim (get "version" d) [
  | none ↦ ok (pos 0)
  | some v ↦ elim v [ int n ↦ ok n | _ ↦ raise (ill_typed "version") ]
]

-- `_record_from_payload`
unfoldable pub record_from_payload : Fields → Result PayloadError StateRecord
unfolding text_field int_field optional_field version_field
record_from_payload payload = do
  state ← text_field "state" payload
  attempt ← int_field "attempt" payload
  last_transition_at ← text_field "last_transition_at" payload
  next_retry_at ← optional_field "next_retry_at" payload
  last_error_class ← optional_field "last_error_class" payload
  owner_id ← optional_field "owner_id" payload
  version ← version_field payload
  ok (record {
    state = state;
    attempt = attempt;
    last_transition_at = last_transition_at;
    next_retry_at = next_retry_at;
    last_error_class = last_error_class;
    owner_id = owner_id;
    version = version;
  })

-- The JSON of a text or `None`.
abbrev pub optional : Option String → Value
optional none = null
optional (some s) = str s

-- `_payload_from_record`
unfoldable pub payload_from_record : StateRecord → Fields
payload_from_record r = field "state" (str r.state) (
    field "attempt" (int r.attempt) (
      field "last_transition_at" (str r.last_transition_at) (
        field "next_retry_at" (optional r.next_retry_at) (
          field "last_error_class" (optional r.last_error_class)
            (field "owner_id" (optional r.owner_id) (field "version" (int r.version) end))))))

abbrev pub Store : Type 0
Store = Dict Fields

-- `load`
unfoldable pub load : String → Store → Result PayloadError (Option StateRecord)
unfolding record_from_payload
load handoff_key data_ = elim (lookup handoff_key data_) [
  | none ↦ ok none
  | some payload ↦ do r ← record_from_payload payload; ok (some r)
]

-- `existing_record`: an empty payload counts as none.
unfoldable pub existing : String → Store → Result PayloadError (Option StateRecord)
unfolding record_from_payload
existing handoff_key data_ = elim (lookup handoff_key data_) [
  | none ↦ ok none
  | some payload ↦
      if is_empty_dict payload then ok none else (do r ← record_from_payload payload; ok (some r))
]

-- `existing_record.version if existing_record else 0`
abbrev pub version_of : Option StateRecord → ℤ
version_of none = pos 0
version_of (some r) = r.version

-- `expected_version is not None and expected_version != existing_version`
abbrev pub is_stale : Option ℤ → ℤ → Bool
is_stale none v = false
is_stale (some e) v = not (pos_part e == pos_part v && neg_part e == neg_part v)

-- What `save` and `update_atomic` do once the existing record is read.
unfoldable pub commit :
    String
    → Option ℤ
    → (Option StateRecord → StateRecord)
    → Option StateRecord
    → Store
    → SaveResult × Store
unfolding payload_from_record ◌+ℤ◌
commit handoff_key expected_version update_fn current data_ =
    let existing_version = version_of current in
    if is_stale expected_version existing_version
    then (
      record {
        saved = false;
        conflict = true;
        version = existing_version;
        record_saved = none;
        current = current;
      },
      data_,
    )
    else let candidate = update_fn current in
      let next_version = existing_version +ℤ pos 1 in
      let next_record = record candidate { version = next_version } in
      (
        record {
          saved = true;
          conflict = false;
          version = next_version;
          record_saved = some next_record;
          current = current;
        },
        insert handoff_key (payload_from_record next_record) data_,
      )

-- `update_atomic`: the result, with what the store holds after it. An exception leaves the file.
unfoldable pub update_atomic :
    String
    → Option ℤ
    → (Option StateRecord → StateRecord)
    → Store
    → Result PayloadError (SaveResult × Store)
unfolding existing commit
update_atomic handoff_key expected_version update_fn data_ = do
  current ← existing handoff_key data_
  ok (commit handoff_key expected_version update_fn current data_)

-- `save`
unfoldable pub save :
    String → StateRecord → Option ℤ → Store → Result PayloadError (SaveResult × Store)
unfolding existing commit
save handoff_key r expected_version data_ = do
  current ← existing handoff_key data_
  ok (commit handoff_key expected_version (λ _. r) current data_)
