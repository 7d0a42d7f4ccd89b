-- ===== src/Base/Texts.antt =====
-- Strings joined, where lists are joined too.
use Prim.Native.String.{String, ◌++◌}

abbrev pub concat : String → String → String
concat a b = a ++ b
