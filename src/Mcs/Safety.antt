-- ===== src/Mcs/Safety.antt =====
-- The client data blocks of `rdp_mcs_parse_connect_initial` (src/wire/mcs.c) on arbitrary bytes.
use rdpserver.Base.{ℕ, zero, suc, ◌+◌, ◌-◌, ◌*◌, ◌≤◌, ◌<◌, ◌≡◌, arith, not, ◌||◌}
use rdpserver.Base.{List, [], ◌∷◌, ltb, leb, ◌==◌, if◌then◌else◌, length, length-set}
use rdpserver.Base.{le→leb, leb→le, lt→ltb, Ensures, returns, refused}
use rdpserver.Base.{bind_then, guard_then, at_then, if_then}
use rdpserver.Mcs.Connect.{
  ConnectInitial, ChannelDef, Monitor, max_channels, max_monitors, store, le16, le32,
}
use rdpserver.Mcs.Connect.{
  copy, read_hostname, core_build, core_hostname, core_flags, cs_core, cs_security,
}
use rdpserver.Mcs.Connect.{
  read_channels, cs_net, cs_cluster, read_monitor, read_monitors, cs_monitor, block,
}
use rdpserver.Mcs.Connect.{blocks, match_at, find_duca}

-- The arrays have their sizes, and the counts are within them.
abbrev pub IsWellFormed : ConnectInitial → Type 0
IsWellFormed c =
    (length c.client_hostname ≡ 16)
    × (length c.channels ≡ 32)
    × (c.channel_count ≤ 32)
    × (length c.monitors ≡ 16)
    × (c.monitor_count ≤ 16)

-- Any value.
abbrev Any {ℓ} : {A : Type ℓ} → A → Type 0
Any a = Unit {0}

store-Ensures {ℓ} :
    {A : Type ℓ} (xs : List A) (i : ℕ) (v : A)
    → i < length xs
    → Ensures (λ ys. length ys ≡ length xs) (store xs i v)
unfolding store
store-Ensures xs i v h = rw (lt→ltb i (length xs) h) (returns (length-set xs i v))

le16-Ensures : (u : List ℕ) (i : ℕ) → i + 2 ≤ length u → Ensures Any (le16 u i)
unfolding le16
le16-Ensures u i h =
    at_then u i (omega arith) λ a e. at_then u (i + 1) (omega arith) λ b f. returns tt

le32-Ensures : (u : List ℕ) (i : ℕ) → i + 4 ≤ length u → Ensures Any (le32 u i)
unfolding le32
le32-Ensures u i h = at_then u i (omega arith) λ a e.
    at_then u (i + 1) (omega arith) λ b f.
      at_then u (i + 2) (omega arith) λ c g. at_then u (i + 3) (omega arith) λ d k. returns tt

copy-Ensures : (u : List ℕ) (i n : ℕ) → i + n ≤ length u → Ensures Any (copy u i n)
unfolding copy
copy-Ensures u i n h = rw (le→leb (i + n) (length u) h) (returns tt)

read_hostname-Ensures :
    (n : ℕ) (u : List ℕ) (b i : ℕ) (host : List ℕ)
    → b + 50 ≤ length u
    → n + i ≤ 15
    → length host ≡ 16
    → Ensures (λ h. length h ≡ 16) (read_hostname n u b i host)
unfolding read_hostname
read_hostname-Ensures zero u b i host h k l = returns l
read_hostname-Ensures (suc n) u b i host h k l = at_then u (b + 20 + i * 2) (omega arith) λ c e.
    bind_then (store-Ensures host i c (omega arith))
      λ (host' : List ℕ) q. read_hostname-Ensures n u b (i + 1) host' h (omega arith) (omega arith)

core_build-Ensures :
    (u : List ℕ) (b blen : ℕ) (c : ConnectInitial)
    → b + blen ≤ length u + 4
    → IsWellFormed c
    → Ensures IsWellFormed (core_build u b blen c)
unfolding core_build
core_build-Ensures u b blen c h w =
    if_then (ltb blen 24) (λ t. returns w)
      λ t. bind_then (le32-Ensures u (b + 16) (ground arith)) λ v q. returns w

core_hostname-Ensures :
    (u : List ℕ) (b blen : ℕ) (c : ConnectInitial)
    → b + blen ≤ length u + 4
    → IsWellFormed c
    → Ensures IsWellFormed (core_hostname u b blen c)
unfolding core_hostname
core_hostname-Ensures u b blen c h w =
    if_then (ltb blen 54) (λ t. returns w)
      λ t.
        bind_then
          (read_hostname-Ensures 15 u b 0 c.client_hostname (ground arith) (omega arith) w.0)
          λ (v : List ℕ) q. returns (q, w.1, w.2, w.3, w.4)

core_flags-Ensures :
    (u : List ℕ) (b blen : ℕ) (c : ConnectInitial)
    → b + blen ≤ length u + 4
    → IsWellFormed c
    → Ensures IsWellFormed (core_flags u b blen c)
unfolding core_flags
core_flags-Ensures u b blen c h w =
    if_then (ltb blen 146) (λ t. returns w)
      λ t. bind_then (le16-Ensures u (b + 140) (ground arith)) λ v q. returns w

cs_core-Ensures :
    (u : List ℕ) (b blen : ℕ) (c : ConnectInitial)
    → b + blen ≤ length u + 4
    → IsWellFormed c
    → Ensures IsWellFormed (cs_core u b blen c)
unfolding cs_core
cs_core-Ensures u b blen c h w =
    if_then (ltb blen 20) (λ t. returns w)
      λ t. bind_then (le32-Ensures u b (ground arith)) λ version q1.
        bind_then (le16-Ensures u (b + 4) (ground arith)) λ width q2.
          bind_then (le16-Ensures u (b + 6) (ground arith)) λ height q3.
            bind_then (le16-Ensures u (b + 8) (ground arith)) λ depth q4.
              bind_then (le32-Ensures u (b + 12) (ground arith)) λ layout q5.
                bind_then (core_build-Ensures u b blen _ h w) λ c1 w1.
                  bind_then (core_hostname-Ensures u b blen c1 h w1)
                    λ c2 w2. core_flags-Ensures u b blen c2 h w2

cs_security-Ensures :
    (u : List ℕ) (b blen : ℕ) (c : ConnectInitial)
    → b + blen ≤ length u + 4
    → IsWellFormed c
    → Ensures IsWellFormed (cs_security u b blen c)
unfolding cs_security
cs_security-Ensures u b blen c h w =
    if_then (ltb blen 12) (λ t. returns w)
      λ t.
        bind_then (le32-Ensures u b (ground arith))
          λ methods q1. bind_then (le32-Ensures u (b + 4) (ground arith)) λ ext q2. returns w

read_channels-Ensures :
    (n : ℕ) (u : List ℕ) (b i : ℕ) (channels : List ChannelDef)
    → b + 4 + (n + i) * 12 ≤ length u
    → n + i ≤ 32
    → length channels ≡ 32
    → Ensures (λ cs. length cs ≡ 32) (read_channels n u b i channels)
unfolding read_channels
read_channels-Ensures zero u b i channels h k l = returns l
read_channels-Ensures (suc n) u b i channels h k l =
    bind_then (copy-Ensures u (b + 4 + i * 12) 8 (omega arith)) λ name q1.
      bind_then (le32-Ensures u (b + 4 + i * 12 + 8) (omega arith)) λ options q2.
        bind_then
          (store-Ensures channels i (record { name = name; options = options }) (omega arith))
          λ (channels' : List ChannelDef) q3.
            read_channels-Ensures n u b (i + 1) channels' (omega arith) (omega arith) (omega arith)

cs_net-Ensures :
    (u : List ℕ) (b blen : ℕ) (c : ConnectInitial)
    → b + blen ≤ length u + 4
    → IsWellFormed c
    → Ensures IsWellFormed (cs_net u b blen c)
unfolding cs_net
cs_net-Ensures u b blen c h w =
    if_then (ltb blen 8) (λ t. returns w)
      λ t. bind_then (le32-Ensures u b (ground arith)) λ (count : ℕ) q.
        guard_then (leb count max_channels) λ few. guard_then (leb (8 + count * 12) blen) λ room.
          bind_then (read_channels-Ensures count u b 0 c.channels (ground arith) (ground arith) w.1)
            λ (cs : List ChannelDef) sized. returns (w.0, sized, leb→le count 32 few, w.3, w.4)

cs_cluster-Ensures :
    (u : List ℕ) (b blen : ℕ) (c : ConnectInitial)
    → b + blen ≤ length u + 4
    → IsWellFormed c
    → Ensures IsWellFormed (cs_cluster u b blen c)
unfolding cs_cluster
cs_cluster-Ensures u b blen c h w =
    if_then (ltb blen 12) (λ t. returns w)
      λ t.
        bind_then (le32-Ensures u b (ground arith))
          λ flags q1. bind_then (le32-Ensures u (b + 4) (ground arith)) λ session q2. returns w

read_monitor-Ensures : (u : List ℕ) (m : ℕ) → m + 20 ≤ length u → Ensures Any (read_monitor u m)
unfolding read_monitor
read_monitor-Ensures u m h = bind_then (le32-Ensures u m (omega arith)) λ left q1.
    bind_then (le32-Ensures u (m + 4) (omega arith)) λ top q2.
      bind_then (le32-Ensures u (m + 8) (omega arith)) λ right q3.
        bind_then (le32-Ensures u (m + 12) (omega arith))
          λ bottom q4. bind_then (le32-Ensures u (m + 16) (omega arith)) λ flags q5. returns tt

read_monitors-Ensures :
    (n : ℕ) (u : List ℕ) (b blen i : ℕ) (monitors : List Monitor)
    → b + blen ≤ length u + 4
    → n + i ≤ 16
    → length monitors ≡ 16
    → Ensures (λ t. (t.0 ≤ 16) × (length t.1 ≡ 16)) (read_monitors n u b blen i monitors)
unfolding read_monitors
read_monitors-Ensures zero u b blen i monitors h k l = returns (omega arith, l)
read_monitors-Ensures (suc n) u b blen i monitors h k l =
    if_then (ltb (blen - 4) (8 + i * 20 + 20)) (λ t. returns (omega arith, l))
      λ t. bind_then (read_monitor-Ensures u (b + 8 + i * 20) (ground arith)) λ monitor q1.
        bind_then (store-Ensures monitors i monitor (omega arith)) λ (ms : List Monitor) q2.
          read_monitors-Ensures n u b blen (i + 1) ms h (omega arith) (omega arith)

cs_monitor-Ensures :
    (u : List ℕ) (b blen : ℕ) (c : ConnectInitial)
    → b + blen ≤ length u + 4
    → IsWellFormed c
    → Ensures IsWellFormed (cs_monitor u b blen c)
unfolding cs_monitor
cs_monitor-Ensures u b blen c h w =
    if_then (ltb blen 12) (λ t. returns w)
      λ t. bind_then (le32-Ensures u (b + 4) (ground arith)) λ (nm : ℕ) q.
        bind_then
          (read_monitors-Ensures (if ltb max_monitors nm then max_monitors else nm) u b blen 0
            c.monitors h (ground arith) w.3)
          λ (t : ℕ × List Monitor) sized. returns (w.0, w.1, w.2, sized.1, sized.0)

pub block-Ensures :
    (btype : ℕ) (u : List ℕ) (b blen : ℕ) (c : ConnectInitial)
    → b + blen ≤ length u + 4
    → IsWellFormed c
    → Ensures IsWellFormed (block btype u b blen c)
unfolding block
block-Ensures btype u b blen c h w =
    if_then (btype == 0xc001) (λ t. cs_core-Ensures u b blen c h w)
      λ t1.
        if_then (btype == 0xc002) (λ t. cs_security-Ensures u b blen c h w)
          λ t2.
            if_then (btype == 0xc003) (λ t. cs_net-Ensures u b blen c h w)
              λ t3.
                if_then (btype == 0xc004) (λ t. cs_cluster-Ensures u b blen c h w)
                  λ t4.
                    if_then (btype == 0xc005) (λ t. cs_monitor-Ensures u b blen c h w)
                      λ t5. if_then (btype == 0xc006) (λ t. returns w) λ t6. returns w

pub blocks-Ensures :
    (fuel : ℕ) (u : List ℕ) (off : ℕ) (c : ConnectInitial)
    → length u < off + fuel
    → off ≤ length u
    → IsWellFormed c
    → Ensures IsWellFormed (blocks fuel u off c)
unfolding blocks
blocks-Ensures zero u off c h k w = absurd (omega arith)
blocks-Ensures (suc fuel) u off c h k w =
    if_then (ltb (length u) (off + 4)) (λ t. returns w)
      λ t. bind_then (le16-Ensures u off (ground arith)) λ btype q1.
        bind_then (le16-Ensures u (off + 2) (ground arith)) λ (blen : ℕ) q2.
          guard_then (not (ltb blen 4 || ltb (length u - off) blen)) λ g.
            bind_then (block-Ensures btype u (off + 4) blen c (ground arith) w)
              λ c' w'. blocks-Ensures fuel u (off + blen) c' (ground arith) (ground arith) w'

pub match_at-Ensures :
    (u : List ℕ) (i : ℕ) (key : List ℕ) → i + length key ≤ length u → Ensures Any (match_at u i key)
unfolding match_at
match_at-Ensures u i [] h = returns tt
match_at-Ensures u i (k ∷ key) h =
    at_then u i (omega arith)
      λ c e. if_then (c == k) (λ t. match_at-Ensures u (i + 1) key (omega arith)) λ t. returns tt

pub find_duca-Ensures :
    (fuel : ℕ) (u : List ℕ) (i : ℕ)
    → length u < i + fuel
    → i ≤ length u
    → Ensures (λ d. d ≤ length u) (find_duca fuel u i)
unfolding find_duca
find_duca-Ensures zero u i h k = absurd (omega arith)
find_duca-Ensures (suc fuel) u i h k =
    if_then (ltb (length u) (i + 4)) (λ t. refused)
      λ t.
        bind_then (match_at-Ensures u i (0x44 ∷ 0x75 ∷ 0x63 ∷ 0x61 ∷ []) (ground arith)) λ found q.
          if_then found (λ f. returns (ground arith))
            λ f. find_duca-Ensures fuel u (i + 1) (omega arith) (ground arith)
