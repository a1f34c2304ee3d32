-- ===== src/Session/Fork/Tests.antt =====
-- A fork of the sample session.
use just_another_coding_agen.Base.{◌≡◌, refl, none, some, List, ok}
use just_another_coding_agen.Session.Entries.{SessionEntry}
use just_another_coding_agen.Session.Load.{load_session}
use just_another_coding_agen.Session.Load.Tests.{sample_entries, sample_loaded, sample_loads}
use just_another_coding_agen.Session.Load.Forked.{forked_session}
use just_another_coding_agen.Session.Files.{SessionFiles, new_metadata}
use just_another_coding_agen.Session.Fork.{fork_session}
use just_another_coding_agen.Session.Fork.Reload.{fork_entry, forked_metadata, fork_session-reloads}

abbrev source : SessionFiles
source = record { entries = some sample_entries; metadata = some (new_metadata "s1" 5) }

abbrev target : SessionFiles
target = record { entries = none; metadata = none }

fork_session-reloads_example :
    (ys : List SessionEntry) × (fork_session source "s2" "/w" "s1" 9 target ≡ (
      ok tt,
      record {
        entries = some ys;
        metadata = some (forked_metadata "s2" "s1" 9 (new_metadata "s1" 5));
      },
    ))
    × (load_session "/w" ys ≡ ok (forked_session (fork_entry "s1" sample_loaded) sample_loaded))
fork_session-reloads_example =
    fork_session-reloads source target "s2" "/w" "s1" 9 sample_entries sample_loaded
      (new_metadata "s1" 5) refl refl refl sample_loads
