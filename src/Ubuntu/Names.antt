-- ===== src/Ubuntu/Names.antt =====
-- The names that extractTarGzStrip of ubuntu.go unpacks, against those of the job's utility.go.
use deployd.Prelude.{String, ◌<>◌, List, [], ◌∷◌}
use deployd.Ubuntu.{next_prefix, trim_prefix}

-- The names in the order of the archive, with the prefix as it stands before them.
unfoldable pub stripped : String → List String → List String
stripped prefix [] = []
stripped prefix (n ∷ names) =
    trim_prefix n (next_prefix prefix n) ∷ stripped (next_prefix prefix n) names

-- A name below the directory `a`.
abbrev pub under : String → String → String
under a b = a <> ("/" <> b)
