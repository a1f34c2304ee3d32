-- ===== src/Session/Upkeep/Documented.antt =====
-- When a session loads after project documents were appended to it.
use just_another_coding_agen.Base.{Bool, ◌&&◌, is_none, is_empty}
use just_another_coding_agen.Session.Entries.{LoadedSession}
use just_another_coding_agen.Session.Load.{LoadState}

-- Documents may come once, before the runs.
abbrev pub takes_docs : LoadedSession → Bool
takes_docs s = is_none s.project_docs && is_empty s.runs && is_empty s.compactions

abbrev takes : LoadState → Bool
takes s = is_none s.project_docs && is_empty s.runs && is_empty s.compactions
