-- ===== src/Soloist/Disk.antt =====
-- internal/soloist/session.go: `SessionChecker`; and the files that it and the binary manager see.
use teddycloud_spotify_radio.Base.{
  ℕ, List, [], ◌∷◌, Option, some, if◌then◌else◌, Text, codes, text_eq, join_paths,
}

pub data Node : Type 0 where
  directory : Node
  file : List ℕ → Node

-- What is found under a path, if anything.
abbrev pub Disk : Type 0
Disk = Text → Option Node

unfoldable pub put : Text → Option Node → Disk → Disk
unfolding text_eq
put path node d q = if text_eq path q then node else d q

pub data SessionState : Type 0 where
  ready unpaired : SessionState

state_of : Option Node → SessionState
state_of (some directory) = ready
state_of _ = unpaired

-- `Check`: settings/Users is a directory below the data directory.
unfoldable pub check : Text → Disk → SessionState
unfolding state_of join_paths
check data_dir d = state_of (d (join_paths (data_dir ∷ codes "settings/Users" ∷ [])))
