-- ===== src/X224/Safety.antt =====
-- `rdp_x224_parse_cr` of src/wire/x224.c on arbitrary buffers.
use rdpserver.Base.{ℕ, ◌≤◌}
use rdpserver.Base.{List, length}
use rdpserver.X224.{Request}

-- What is reported lies in the body.
abbrev pub Inside : List ℕ → Request → Type 0
Inside p r = length r.cookie ≤ length p
