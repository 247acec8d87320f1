-- ===== src/Base/Paths.antt =====
-- Unix paths as text, and what the sources use of the file system.
use akua.Base.Tests.{if◌then◌else◌, ◌==◌, nat_eq}
use akua.Base.Lists.{is_empty}
use akua.Base.Texts.{Text}
use mathlib.Core.Bool.{Bool, false}
use mathlib.Core.List.{[], ◌∷◌, ◌++◌}

abbrev pub FilePath : Type 0
FilePath = Text

-- `Path::is_absolute`
abbrev pub is_absolute : FilePath → Bool
is_absolute [] = false
is_absolute (c ∷ _) = c == b'/'

ends_with_slash : FilePath → Bool
ends_with_slash [] = false
ends_with_slash (c ∷ []) = c == b'/'
ends_with_slash (c ∷ d ∷ p) = ends_with_slash (d ∷ p)

-- `Path::join`: an absolute path replaces the base.
unfoldable pub join : FilePath → FilePath → FilePath
unfolding ends_with_slash
join base p =
    if is_absolute p
    then p
    else if is_empty base
    then p
    else if ends_with_slash base
    then base ++ p
    else base ++ (b'/' ∷ p)

-- `std::fs::read_to_string`: `NotFound` is told apart from the other errors.
pub data Read (IoError : Type 0) : Type 0 where
  content : Text → Read IoError
  not_found : Read IoError
  io_error : IoError → Read IoError
