-- ===== src/Session/Files.antt =====
-- The two files of a session, and actions that write them and may raise: what was written before
-- an exception stays written. From session/jsonl.py: `_write_entry`, the metadata functions,
-- `initialize_session` and `_ensure_session_is_appendable`. A file is the list of the entries that
-- its lines read as, which Session/Lines gives for the text that is written; a workspace root is given as `normalize_workspace_root` returns it; a time is a number.
use just_another_coding_agen.Base.{
  ◌≡◌, refl, ℕ, String, Bool, true, false, Option, none, some, List, [], ◌∷◌, ◌++◌, or_else, Result,
  ok, err,
}
use just_another_coding_agen.Session.Errors.{FormatError}
use just_another_coding_agen.Session.Entries.{SessionEntry, session_header, LoadedSession}
use just_another_coding_agen.Session.Load.{load_session}

pub record SessionMetadata : Type 0 where
  pub session_id : String
  pub name : Option String
  pub current_mode : String
  pub created_at : ℕ
  pub updated_at : ℕ
  pub forked_from_session_id : Option String
  pub consecutive_auto_compaction_failures : ℕ

-- `none` is a file that does not exist.
pub record SessionFiles : Type 0 where
  pub entries : Option (List SessionEntry)
  pub metadata : Option SessionMetadata

pub data StoreError : Type 0 where
  session_format : FormatError → StoreError
  metadata_is_missing : StoreError
  session_already_exists : StoreError
  append_after_finalization : StoreError
  already_finalized : StoreError
  appender_is_closed : StoreError
  name_without_letter_or_number : StoreError
  name_already_in_use : StoreError
  negative_failure_count : StoreError

abbrev pub Writing : Type 0 → Type 0
Writing A = SessionFiles → Result StoreError A × SessionFiles

abbrev continue : {A B : Type 0} → Result StoreError A → (A → Writing B) → Writing B
continue (ok a) f files = f a files
continue (err e) f files = (err e, files)

infixl 5 ◌>>=◌ ◌>>◌
abbrev pub ◌>>=◌ : {A B : Type 0} → Writing A → (A → Writing B) → Writing B
◌>>=◌ m f files = let (r, files') = m files in continue r f files'

continue-eq-ok :
    {A B : Type 0} (r : Result StoreError A × SessionFiles) (f : A → Writing B) {b : B}
    {files' : SessionFiles}
    → continue r.0 f r.1 ≡ (ok b, files')
    → (a : A) × (mid : SessionFiles) × (r ≡ (ok a, mid)) × (f a mid ≡ (ok b, files'))
continue-eq-ok (ok a, mid) f h = (a, mid, refl, h)
continue-eq-ok (err e, mid) f h = cc

-- Inversion of a successful bind.
pub >>=-eq-ok :
    {A B : Type 0} (m : Writing A) (f : A → Writing B) (files : SessionFiles) {b : B}
    {files' : SessionFiles}
    → (m >>= f) files ≡ (ok b, files')
    → (a : A) × (mid : SessionFiles) × (m files ≡ (ok a, mid)) × (f a mid ≡ (ok b, files'))
>>=-eq-ok m f files h = continue-eq-ok (m files) f h

abbrev pub ◌>>◌ : {B : Type 0} → Writing (Unit {0}) → Writing B → Writing B
m >> n = m >>= λ _. n

abbrev pub done : Writing (Unit {0})
done files = (ok tt, files)

abbrev pub pure : {A : Type 0} → A → Writing A
pure a files = (ok a, files)

abbrev pub raise : {A : Type 0} → StoreError → Writing A
raise e files = (err e, files)

abbrev pub raise_if : Bool → StoreError → Writing (Unit {0})
raise_if true e files = (err e, files)
raise_if false e files = (ok tt, files)

abbrev from_format : {A : Type 0} → Result FormatError A → Result StoreError A
from_format (ok a) = ok a
from_format (err e) = err (session_format e)

-- A check that raises `SessionFormatError`.
abbrev pub checked : {A : Type 0} → Result FormatError A → Writing A
checked r files = (from_format r, files)

-- `_write_entry`, on a handle opened for appending.
unfoldable pub write_entry : SessionEntry → Writing (Unit {0})
write_entry e files = (ok tt, record files { entries = some (or_else files.entries [] ++ e ∷ []) })

-- `load_session` on the session's path, from the entries of its lines; Session/Lines has the text of
-- the file. `read_text` fails on a missing file.
unfoldable pub load_files : String → Writing LoadedSession
load_files root files = (from_format (load_session root (or_else files.entries [])), files)

unfoldable pub read_session_metadata : Writing SessionMetadata
read_session_metadata files = elim files.metadata [
  | none ↦ (err metadata_is_missing, files)
  | some m ↦ (ok m, files)
]

unfoldable pub write_session_metadata : SessionMetadata → Writing (Unit {0})
write_session_metadata m files = (ok tt, record files { metadata = some m })

-- `_update_session_metadata` with `updated_at` given.
unfoldable pub touch_metadata : ℕ → Writing (Unit {0})
unfolding read_session_metadata write_session_metadata
touch_metadata now = do
  m ← read_session_metadata
  write_session_metadata (record m { updated_at = now })

abbrev pub new_metadata : String → ℕ → SessionMetadata
new_metadata session_id now = record {
  session_id = session_id;
  name = none;
  current_mode = "coding";
  created_at = now;
  updated_at = now;
  forked_from_session_id = none;
  consecutive_auto_compaction_failures = 0;
}

abbrev header_of : String → String → SessionEntry
header_of root shell_family =
    session_header (record { workspace_root = root; shell_family = shell_family })

-- A new file with the header, and its metadata.
create_session : String → String → String → ℕ → Writing (Unit {0})
unfolding write_entry write_session_metadata
create_session session_id root shell_family now = do
  write_entry (header_of root shell_family)
  write_session_metadata (new_metadata session_id now)

unfoldable pub initialize_session : String → String → String → ℕ → Writing (Unit {0})
unfolding create_session
initialize_session session_id root shell_family now files = elim files.entries [
  | some es ↦ (err session_already_exists, files)
  | none ↦ create_session session_id root shell_family now files
]

-- `_ensure_session_is_appendable`
unfoldable pub ensure_session_is_appendable : String → String → String → ℕ → Writing (Unit {0})
unfolding create_session load_files read_session_metadata
ensure_session_is_appendable session_id root shell_family now files = elim files.entries [
  | some es ↦ (do s ← load_files root; m ← read_session_metadata; done) files
  | none ↦ create_session session_id root shell_family now files
]
