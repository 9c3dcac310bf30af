-- ===== src/Files.antt =====
-- project_files.py: from a relative path of a request to what stands there under the root of a project. A
-- tree of nodes stands for the file system; what a call may not read is left out.
pub mod Paths
pub mod Walking
mod Examples
use Prim.Native.Char.{Char, code}
use Prim.Native.String.{len}
use Prim.Native.String.{[] as empty, ◌∷◌ as ◌▹◌}
use agent_app_server.Base.{
  ℕ, Bool, true, false, not, ◌&&◌, ◌||◌, Option, none, some, List, [], ◌∷◌, String, String-discrete,
  Result, ok, err, ◌>>=◌, if◌then◌else◌, ltb, leb, ◌==◌, any, ite, holds,
}
use agent_app_server.Json.{is_empty}
use agent_app_server.Texts.{any_character, is_one_of, has_prefix}

pub data FileError : Type 0 where
  invalid_path not_found wrong_type file_error : FileError

abbrev pub in_front : Char → List String → List String
in_front c [] = (c ▹ "") ∷ []
in_front c (s ∷ parts) = (c ▹ s) ∷ parts

-- `value.split("/")`
unfoldable pub split_path : String → List String
split_path empty = "" ∷ []
split_path (c ▹ s) = let rest = split_path s in if code c == 47 then "" ∷ rest else in_front c rest

abbrev pub is_ascii_letter : ℕ → Bool
is_ascii_letter c = leb 65 c && leb c 90 || leb 97 c && leb c 122

-- `re.match(r"^[A-Za-z]:", value)`
abbrev pub has_drive : String → Bool
has_drive (c ▹ d ▹ s) = is_ascii_letter (code c) && code d == 58
has_drive _ = false

abbrev pub is_bad_part : String → Bool
is_bad_part part =
    is_empty part
    || is_one_of ("." ∷ ".." ∷ []) part
    || ltb 255 (len part)
    || any_character (λ c. ltb c 32 || c == 127) part

abbrev pub is_journal_path : List String → Bool
is_journal_path [] = false
is_journal_path (part ∷ parts) = holds (String-discrete part ".stream_journal")

abbrev pub checked_parts : List String → Result FileError (List String)
checked_parts parts =
    if is_journal_path parts || any is_bad_part parts then err invalid_path else ok parts

-- `_relative_parts`
unfoldable pub relative_parts : Bool → String → Result FileError (List String)
relative_parts allow_root value =
    if is_empty value
    then (if allow_root then ok [] else err invalid_path)
    else if has_prefix value "/"
        || has_drive value
        || any_character (λ c. c == 92 || c == 0) value
        || ltb 4096 (len value)
    then err invalid_path
    else checked_parts (split_path value)

mutual
  pub data Node : Type 0 where
    -- A regular file of a size, a symbolic link, a directory, or anything else.
    regular : ℕ → Node
    link : Node
    directory : Entries → Node
    special : Node

  pub data Entries : Type 0 where
    no_more : Entries
    entry : String → Node → Entries → Entries

unfoldable pub find_entry : Entries → String → Option Node
find_entry no_more name = none
find_entry (entry n node entries) name =
    ite (String-discrete n name) (some node) (find_entry entries name)

-- `current.lstat()`
abbrev pub look : Option Node → String → Result FileError (Option Node)
look none part = ok none
look (some (directory entries)) part = ok (find_entry entries part)
look (some node) part = err file_error

-- One turn of the loop: a link is refused, and a missing entry unless it may be missing.
abbrev pub step : Bool → Option Node → Result FileError (Option Node)
step allow_missing none = if allow_missing then ok none else err not_found
step allow_missing (some link) = err invalid_path
step allow_missing (some node) = ok (some node)

unfoldable pub walk : Bool → Option Node → List String → Result FileError (Option Node)
walk allow_missing current [] = ok current
walk allow_missing current (part ∷ parts) = look current part >>= λ found.
    step allow_missing found >>= λ next. walk allow_missing next parts

-- `_existing_path`: the parts of the path, and the node there if there is one. Without links and dots the path
-- is its own resolution, beneath the root.
unfoldable pub existing_path :
    Bool → Bool → Node → String → Result FileError (List String × Option Node)
unfolding relative_parts walk
existing_path allow_root allow_missing root value = relative_parts allow_root value >>= λ parts.
    walk allow_missing (some root) parts >>= λ node. ok (parts, node)

abbrev pub as_directory : Option Node → Result FileError Entries
as_directory (some (directory entries)) = ok entries
as_directory (some node) = err wrong_type
as_directory none = err file_error

-- `_directory`
unfoldable pub directory_at : Node → String → Result FileError Entries
unfolding existing_path
directory_at root value = existing_path true false root value >>= λ found. as_directory found.1

-- The type and the size of `_entry`.
abbrev pub entry_kind : Option Node → Result FileError (String × Option ℕ)
entry_kind none = err not_found
entry_kind (some link) = err invalid_path
entry_kind (some (directory entries)) = ok ("directory", none)
entry_kind (some (regular size)) = ok ("file", some size)
entry_kind (some special) = err wrong_type
