-- ===== src/Base/Paths.antt =====
-- `std::path::Path` on the texts of Unix paths.
use Prim.Native.String
use Prim.Native.String.{String}
use mathlib.Core.Bool.{Bool, ◌||◌}
use clawpod.Base.Tests.{if◌then◌else◌, is_some}
use clawpod.Base.Text.{is_empty, strip_prefix, strip_suffix}

-- `is_absolute`.
unfoldable pub is_absolute : String → Bool
unfolding strip_prefix
is_absolute path = is_some (strip_prefix path "/")

-- `join`: an absolute path replaces the first one.
unfoldable pub join : String → String → String
unfolding is_absolute strip_suffix
join folder path =
    if is_absolute path
    then path
    else if is_empty folder || is_some (strip_suffix folder "/")
    then String.◌++◌ folder path
    else String.◌++◌ folder (String.◌++◌ "/" path)
