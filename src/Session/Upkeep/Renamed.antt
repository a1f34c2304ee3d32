-- ===== src/Session/Upkeep/Renamed.antt =====
-- A session that was given a name loads with it.
use just_another_coding_agen.Base.{◌≡◌, ℕ, String, false, some, List, ok, arith}
use just_another_coding_agen.Session.Entries.{SessionEntry, LoadedSession}
use just_another_coding_agen.Session.Load.{load_session}
use just_another_coding_agen.Session.Files.{SessionFiles, SessionMetadata, load_files}
use just_another_coding_agen.Session.Upkeep.{is_taken}

-- What became of the two files.
pub data Named (root n : String) (candidates : List SessionMetadata) (now : ℕ)
    (loaded : LoadedSession) (m : SessionMetadata) (files files' : SessionFiles) : Type 0 where
  had_name : m.name ≡ some n → files' ≡ files → Named root n candidates now loaded m files files'
  new_name :
      (ys : List SessionEntry)
      → is_taken m.session_id n candidates ≡ false
      → files'.entries ≡ some ys
      → load_session root ys ≡ ok (record loaded { name = some n })
      → files'.metadata ≡ some (record m { name = some n; updated_at = now })
      → Named root n candidates now loaded m files files'

pub load_files-same :
    (root : String) (found : LoadedSession) (files mid : SessionFiles)
    → load_files root files ≡ (ok found, mid)
    → mid ≡ files
unfolding load_files
load_files-same root found files mid h = ground arith
