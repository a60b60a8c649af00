-- ===== src/Naming/Short.antt =====
-- `Short` of internal/naming/naming.go
use clusterctl.Prelude.{ℕ, Bytes, before}

abbrev pub dot : ℕ
dot = b'.'

-- Short
unfoldable pub short : Bytes → Bytes
short name = before dot name
