-- ===== src/Mcs/Connect.antt =====
-- src/wire/mcs.c: `rdp_mcs_parse_connect_initial` and the structures it fills in. All indices are
-- into the user data: the body of a block that starts at `b - 4` is behind `b`.
use rdpserver.Base.{ℕ, zero, suc, ◌+◌, ◌-◌, ◌*◌, Bool, true, false, not, ◌||◌, List, [], ◌∷◌}
use rdpserver.Base.{ltb, leb, ◌==◌, if◌then◌else◌, length, drop, take, replicate, set}
use rdpserver.Base.{Read, ok, err, fault, ◌>>=◌, ◌>>◌, guard, at}
use rdpserver.Buf.{u16, u32}

abbrev pub max_channels : ℕ
max_channels = 32

abbrev pub max_monitors : ℕ
max_monitors = 16

-- `struct rdp_mcs_channel_def`
pub record ChannelDef : Type 0 where
  pub name : List ℕ
  pub options : ℕ

-- An entry of `monitors`. The four coordinates are `int32_t` and stand here as the 32 bits read.
pub record Monitor : Type 0 where
  pub left : ℕ
  pub top : ℕ
  pub right : ℕ
  pub bottom : ℕ
  pub flags : ℕ

-- `struct rdp_mcs_connect_initial`
pub record ConnectInitial : Type 0 where
  pub client_version : ℕ
  pub desktop_width : ℕ
  pub desktop_height : ℕ
  pub color_depth : ℕ
  pub keyboard_layout : ℕ
  pub client_build : ℕ
  pub client_hostname : List ℕ
  pub encryption_methods : ℕ
  pub ext_encryption_methods : ℕ
  pub channel_count : ℕ
  pub channels : List ChannelDef
  pub cluster_flags : ℕ
  pub redirected_session_id : ℕ
  pub early_capability_flags : ℕ
  pub has_msgchannel : Bool
  pub monitor_count : ℕ
  pub monitors : List Monitor

abbrev no_channel : ChannelDef
no_channel = record { name = replicate 8 0; options = 0 }

abbrev no_monitor : Monitor
no_monitor = record { left = 0; top = 0; right = 0; bottom = 0; flags = 0 }

-- `memset(out, 0, sizeof *out)`
unfoldable pub cleared : ConnectInitial
cleared = record {
  client_version = 0;
  desktop_width = 0;
  desktop_height = 0;
  color_depth = 0;
  keyboard_layout = 0;
  client_build = 0;
  client_hostname = replicate 16 0;
  encryption_methods = 0;
  ext_encryption_methods = 0;
  channel_count = 0;
  channels = replicate 32 no_channel;
  cluster_flags = 0;
  redirected_session_id = 0;
  early_capability_flags = 0;
  has_msgchannel = false;
  monitor_count = 0;
  monitors = replicate 16 no_monitor;
}

-- `a[i] = v` of an array in the structure; outside the array it is a `fault`, like a read.
unfoldable pub store {ℓ} : {A : Type ℓ} → List A → ℕ → A → Read (List A)
store xs i v = if ltb i (length xs) then ok (set xs i v) else fault

-- Little-endian fields, and `memcpy` from the slice.
unfoldable pub le16 : List ℕ → ℕ → Read ℕ
le16 u i = do a ← at u i; b ← at u (i + 1); ok (u16 a b)

unfoldable pub le32 : List ℕ → ℕ → Read ℕ
le32 u i = do a ← at u i; b ← at u (i + 1); c ← at u (i + 2); d ← at u (i + 3); ok (u32 a b c d)

unfoldable pub copy : List ℕ → ℕ → ℕ → Read (List ℕ)
copy u i n = if leb (i + n) (length u) then ok (take n (drop i u)) else fault

-- `for (i = 0; i < 15; i++) out->client_hostname[i] = (char)body[20 + i * 2];` from `i` on.
unfoldable pub read_hostname : ℕ → List ℕ → ℕ → ℕ → List ℕ → Read (List ℕ)
unfolding store
read_hostname zero u b i host = ok host
read_hostname (suc n) u b i host = do
  c ← at u (b + 20 + i * 2)
  host' ← store host i c
  read_hostname n u b (i + 1) host'

-- The parts of CS_CORE that a long enough block has.
unfoldable pub core_build : List ℕ → ℕ → ℕ → ConnectInitial → Read ConnectInitial
core_build u b blen out =
    if ltb blen 24 then ok out else (do v ← le32 u (b + 16); ok (record out { client_build = v }))

unfoldable pub core_hostname : List ℕ → ℕ → ℕ → ConnectInitial → Read ConnectInitial
core_hostname u b blen out = if ltb blen 54 then ok out else (do
  v ← read_hostname 15 u b 0 out.client_hostname
  ok (record out { client_hostname = v }))

unfoldable pub core_flags : List ℕ → ℕ → ℕ → ConnectInitial → Read ConnectInitial
core_flags u b blen out =
    if ltb blen 146
    then ok out
    else (do v ← le16 u (b + 140); ok (record out { early_capability_flags = v }))

unfoldable pub cs_core : List ℕ → ℕ → ℕ → ConnectInitial → Read ConnectInitial
unfolding core_build core_hostname core_flags
cs_core u b blen out = if ltb blen 20 then ok out else (do
  version ← le32 u b
  width ← le16 u (b + 4)
  height ← le16 u (b + 6)
  depth ← le16 u (b + 8)
  layout ← le32 u (b + 12)
  out1 ← core_build u b blen (record out {
    client_version = version;
    desktop_width = width;
    desktop_height = height;
    color_depth = depth;
    keyboard_layout = layout;
  })
  out2 ← core_hostname u b blen out1
  core_flags u b blen out2)

unfoldable pub cs_security : List ℕ → ℕ → ℕ → ConnectInitial → Read ConnectInitial
cs_security u b blen out = if ltb blen 12 then ok out else (do
  methods ← le32 u b
  ext ← le32 u (b + 4)
  ok (record out { encryption_methods = methods; ext_encryption_methods = ext }))

-- The channels from `i` on, `n` of them.
unfoldable pub read_channels : ℕ → List ℕ → ℕ → ℕ → List ChannelDef → Read (List ChannelDef)
unfolding store copy
read_channels zero u b i channels = ok channels
read_channels (suc n) u b i channels = do
  name ← copy u (b + 4 + i * 12) 8
  options ← le32 u (b + 4 + i * 12 + 8)
  channels' ← store channels i (record { name = name; options = options })
  read_channels n u b (i + 1) channels'

unfoldable pub cs_net : List ℕ → ℕ → ℕ → ConnectInitial → Read ConnectInitial
unfolding read_channels
cs_net u b blen out = if ltb blen 8 then ok out else (do
  count ← le32 u b
  guard (leb count max_channels)
  guard (leb (8 + count * 12) blen)
  channels ← read_channels count u b 0 out.channels
  ok (record out { channel_count = count; channels = channels }))

unfoldable pub cs_cluster : List ℕ → ℕ → ℕ → ConnectInitial → Read ConnectInitial
cs_cluster u b blen out = if ltb blen 12 then ok out else (do
  flags ← le32 u b
  session ← le32 u (b + 4)
  ok (record out { cluster_flags = flags; redirected_session_id = session }))

unfoldable pub read_monitor : List ℕ → ℕ → Read Monitor
read_monitor u m = do
  left ← le32 u m
  top ← le32 u (m + 4)
  right ← le32 u (m + 8)
  bottom ← le32 u (m + 12)
  flags ← le32 u (m + 16)
  ok (record { left = left; top = top; right = right; bottom = bottom; flags = flags })

-- `for (mi = 0; mi < nm; mi++)` with `n` rounds left: the count `mi` at the end, and the array.
unfoldable pub read_monitors : ℕ → List ℕ → ℕ → ℕ → ℕ → List Monitor → Read (ℕ × List Monitor)
unfolding store
read_monitors zero u b blen i monitors = ok (i, monitors)
read_monitors (suc n) u b blen i monitors =
    if ltb (blen - 4) (8 + i * 20 + 20) then ok (i, monitors) else (do
      monitor ← read_monitor u (b + 8 + i * 20)
      monitors' ← store monitors i monitor
      read_monitors n u b blen (i + 1) monitors')

unfoldable pub cs_monitor : List ℕ → ℕ → ℕ → ConnectInitial → Read ConnectInitial
unfolding read_monitors
cs_monitor u b blen out = if ltb blen 12 then ok out else (do
  nm ← le32 u (b + 4)
  (count, monitors) ←
      read_monitors (if ltb max_monitors nm then max_monitors else nm) u b blen 0 out.monitors
  ok (record out { monitor_count = count; monitors = monitors }))

-- `switch (btype)`
unfoldable pub block : ℕ → List ℕ → ℕ → ℕ → ConnectInitial → Read ConnectInitial
unfolding cs_core cs_security cs_net cs_cluster cs_monitor
block btype u b blen out =
    if btype == 0xc001
    then cs_core u b blen out
    else if btype == 0xc002
    then cs_security u b blen out
    else if btype == 0xc003
    then cs_net u b blen out
    else if btype == 0xc004
    then cs_cluster u b blen out
    else if btype == 0xc005
    then cs_monitor u b blen out
    else if btype == 0xc006
    then ok (record out { has_msgchannel = true })
    else ok out

-- `while (ud_off + 4 <= user_data_len)`: a `fault` if it takes more rounds than the fuel.
unfoldable pub blocks : ℕ → List ℕ → ℕ → ConnectInitial → Read ConnectInitial
unfolding block
blocks zero u off out = fault
blocks (suc fuel) u off out = if ltb (length u) (off + 4) then ok out else (do
  btype ← le16 u off
  blen ← le16 u (off + 2)
  guard (not (ltb blen 4 || ltb (length u - off) blen))
  out' ← block btype u (off + 4) blen out
  blocks fuel u (off + blen) out')

-- Whether these bytes stand at `i`, tested one after the other with `&&`.
unfoldable pub match_at : List ℕ → ℕ → List ℕ → Read Bool
match_at u i [] = ok true
match_at u i (k ∷ key) = do c ← at u i; if c == k then match_at u (i + 1) key else ok false

-- The loop for the H.221 key "Duca": the index behind it.
unfoldable pub find_duca : ℕ → List ℕ → ℕ → Read ℕ
unfolding match_at
find_duca zero u i = fault
find_duca (suc fuel) u i = if ltb (length u) (i + 4) then err else (do
  found ← match_at u i (0x44 ∷ 0x75 ∷ 0x63 ∷ 0x61 ∷ [])
  if found then ok (i + 4) else find_duca fuel u (i + 1))
