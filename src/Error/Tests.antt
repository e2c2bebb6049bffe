-- ===== src/Error/Tests.antt =====
-- The names of the codes at one code.
use gitility.Base.{◌≡◌, some}
use gitility.Error.Code.{timeout, all, as_str}
use gitility.Error.Names.{find_named, find_named-as_str}

find_named-as_str_example : find_named (as_str timeout) all ≡ some timeout
find_named-as_str_example = find_named-as_str timeout
