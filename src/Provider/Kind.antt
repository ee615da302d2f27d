-- ===== src/Provider/Kind.antt =====
-- enum mem_service_memory_kind; the wire may hold any number.
use mem_service.Base.{ℕ}

abbrev pub host : ℕ
host = 1

abbrev pub accelerator : ℕ
accelerator = 2

abbrev pub persistent : ℕ
persistent = 3
